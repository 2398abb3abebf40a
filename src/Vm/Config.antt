-- ===== src/Vm/Config.antt =====
-- The functions of libs/ubpf/vm/ubpf_vm.c that register callbacks and set options.
use text.Mathlib.Text.{◌==◌ as str_eq}
use Prim.Native.String.{String}
use appclick_ubpf.Prelude.{ℕ, zero, suc, ◌+◌, Bool, true, false, not, Option, none, some}
use appclick_ubpf.Prelude.{◌!=◌, leb, if◌then◌else◌, update}
use appclick_ubpf.Vm.{
  Vm, ExternalFunction, Dispatcher, DataRelocation, CompileResult, jit_compile_success,
}
use appclick_ubpf.Vm.{jit_compile_failure, max_ext_funcs, minus_one}

-- The results 0 and -1.
pub data Status : Type 0 where
  success failure : Status

unfoldable pub toggle_bounds_check : Vm → Bool → Vm × Bool
toggle_bounds_check vm enable =
    (record vm { bounds_check_enabled = enable }, vm.bounds_check_enabled)

unfoldable pub toggle_undefined_behavior_check : Vm → Bool → Vm × Bool
toggle_undefined_behavior_check vm enable =
    (record vm { undefined_behavior_check_enabled = enable }, vm.undefined_behavior_check_enabled)

abbrev pub is_compiled : CompileResult → Bool
is_compiled jit_compile_success = true
is_compiled jit_compile_failure = false

-- What patches the jitted code: `mprotect` to writable memory and back, and the update of the
-- table in between, each with its success.
pub record Patch : Type 0 where
  pub make_writable : Bool
  pub jit_update : Bool
  pub make_executable : Bool

unfoldable pub patch_jitted : Vm → Patch → Status
patch_jitted vm p =
    if is_compiled vm.jitted_result.compile_result
    then (if not p.make_writable
        then failure
        else if not p.make_executable
        then failure
        else if p.jit_update
        then success
        else failure)
    else success

unfoldable pub register : Vm → ℕ → String → ExternalFunction → Patch → Vm × Status
unfolding patch_jitted
register vm idx name fn p = if leb max_ext_funcs idx then (vm, failure) else (
  record vm {
    ext_funcs = update vm.ext_funcs idx (some fn);
    ext_func_names = update vm.ext_func_names idx (some name);
  },
  patch_jitted vm p,
)

unfoldable pub register_external_dispatcher :
    Vm → Option Dispatcher → (ℕ → Bool) → Patch → Vm × Status
unfolding patch_jitted
register_external_dispatcher vm dispatcher validater p =
    (record vm { dispatcher = dispatcher; dispatcher_validate = validater }, patch_jitted vm p)

unfoldable pub set_unwind_function_index : Vm → ℕ → Vm × Status
set_unwind_function_index vm idx =
    if vm.unwind_stack_extension_index != minus_one
    then (vm, failure)
    else (record vm { unwind_stack_extension_index = idx }, success)

-- The loop over `ext_func_names` from index `i` on, `left` rounds; -1 when no name is equal.
unfoldable pub lookup_from : Vm → String → ℕ → ℕ → ℕ
lookup_from vm name zero i = minus_one
lookup_from vm name (suc left) i =
    let rest = lookup_from vm name left (i + 1) in
    elim (vm.ext_func_names i) [ none ↦ rest | some other ↦ if str_eq other name then i else rest ]

unfoldable pub lookup_registered_function : Vm → String → ℕ
unfolding lookup_from
lookup_registered_function vm name = lookup_from vm name max_ext_funcs 0

unfoldable pub set_pointer_secret : Vm → ℕ → Vm × Status
set_pointer_secret vm secret = elim vm.insts [
  | some _ ↦ (vm, failure)
  | none ↦ (record vm { pointer_secret = secret }, success)
]

unfoldable pub register_data_relocation : Vm → ℕ → DataRelocation → Vm × Status
register_data_relocation vm user_context relocation = elim vm.data_relocation_function [
  | some _ ↦ (vm, failure)
  | none ↦ (
    record vm {
      data_relocation_function = some relocation;
      data_relocation_user_data = user_context;
    },
    success,
  )
]

unfoldable pub register_data_bounds_check : Vm → ℕ → (ℕ → ℕ → ℕ → Bool) → Vm × Status
register_data_bounds_check vm user_context bounds_check = elim vm.bounds_check_function [
  | some _ ↦ (vm, failure)
  | none ↦ (
    record vm { bounds_check_function = some bounds_check; bounds_check_user_data = user_context },
    success,
  )
]

-- The new limit, and the previous one.
unfoldable pub set_instruction_limit : Vm → ℕ → Vm × ℕ
set_instruction_limit vm limit = (record vm { instruction_limit = limit }, vm.instruction_limit)

unfoldable pub register_stack_usage_calculator : Vm → Option (ℕ → ℕ → ℕ) → ℕ → Vm
register_stack_usage_calculator vm calculator cookie = record vm {
  stack_usage_calculator_cookie = cookie;
  stack_usage_calculator = calculator;
}
