-- ===== src/Vm.antt =====
-- `struct ubpf_vm` of libs/ubpf/vm/ubpf_int.h, `ubpf_create`, and the functions of
-- libs/ubpf/vm/ubpf_vm.c that set or read one part of it.
pub mod Config
pub mod Laws
use appclick_ubpf.Prelude.{ℕ, ◌-◌, ◌^◌, Bool, true, false, Option, none, some, List, []}
use appclick_ubpf.Isa.{Inst}
use appclick_ubpf.Memory.{Memory}
use Prim.Native.String.{String}

-- An external function gets five arguments, and may change memory.
abbrev pub ExternalFunction : Type 0
ExternalFunction = (a b c d e : ℕ) → Memory → ℕ × Memory

-- `external_function_dispatcher_t`: also the index of the function, and a cookie.
abbrev pub Dispatcher : Type 0
Dispatcher = (a b c d e index cookie : ℕ) → Memory → ℕ × Memory

-- `ubpf_data_relocation`: of the context, the bytes and the size of the section, and the symbol's
-- name, offset and size and the immediate.
abbrev pub DataRelocation : Type 0
DataRelocation =
    (user_context : ℕ) (map_data : List ℕ) (map_data_size : ℕ) (symbol_name : String)
    (symbol_offset symbol_size imm : ℕ)
    → ℕ

pub data JitMode : Type 0 where
  basic_jit_mode extended_jit_mode : JitMode

-- `upbf_jit_result_t`.
pub data CompileResult : Type 0 where
  jit_compile_success jit_compile_failure : CompileResult

-- `struct ubpf_jit_result` without its message.
pub record JitResult : Type 0 where
  pub external_dispatcher_offset : ℕ
  pub external_helper_offset : ℕ
  pub compile_result : CompileResult
  pub jit_mode : JitMode

-- `struct ubpf_stack_usage`.
pub record StackUsage : Type 0 where
  pub stack_usage_calculated : Bool
  pub stack_usage : ℕ

-- `insts`: the address of the array, and what it holds.
pub record Code : Type 0 where
  pub address : ℕ
  pub stored : List Inst

-- `struct ubpf_vm`. An `int` is its 32-bit pattern. The callbacks are functions: of their index,
-- of (pc, cookie), of (context, address, size). `dispatcher_validate` is read only where there is
-- a dispatcher, which is set together with it.
pub record Vm : Type 0 where
  pub insts : Option Code
  pub num_insts : ℕ
  pub jitted : Option ℕ
  pub jitted_size : ℕ
  pub jitter_buffer_size : ℕ
  pub jitted_result : JitResult
  pub ext_funcs : ℕ → Option ExternalFunction
  pub int_funcs : List Bool
  pub ext_func_names : ℕ → Option String
  pub local_func_stack_usage : ℕ → StackUsage
  pub stack_usage_calculator_cookie : ℕ
  pub stack_usage_calculator : Option (ℕ → ℕ → ℕ)
  pub dispatcher : Option Dispatcher
  pub dispatcher_validate : ℕ → Bool
  pub bounds_check_enabled : Bool
  pub undefined_behavior_check_enabled : Bool
  pub unwind_stack_extension_index : ℕ
  pub pointer_secret : ℕ
  pub data_relocation_function : Option DataRelocation
  pub data_relocation_user_data : ℕ
  pub bounds_check_function : Option (ℕ → ℕ → ℕ → Bool)
  pub bounds_check_user_data : ℕ
  pub instruction_limit : ℕ

abbrev pub max_ext_funcs : ℕ
max_ext_funcs = 64

abbrev pub max_insts : ℕ
max_insts = 65536

abbrev pub ebpf_stack_size : ℕ
ebpf_stack_size = 512

abbrev pub max_call_depth : ℕ
max_call_depth = 10

abbrev pub default_jitter_buffer_size : ℕ
default_jitter_buffer_size = 65536

-- The `int` -1.
abbrev pub minus_one : ℕ
minus_one = 2 ^ 32 - 1

-- `ubpf_create` where every `calloc` gives memory.
unfoldable pub create : Vm
create = record {
  insts = none;
  num_insts = 0;
  jitted = none;
  jitted_size = 0;
  jitter_buffer_size = default_jitter_buffer_size;
  jitted_result = record {
    external_dispatcher_offset = 0;
    external_helper_offset = 0;
    compile_result = jit_compile_failure;
    jit_mode = basic_jit_mode;
  };
  ext_funcs = λ _. none;
  int_funcs = [];
  ext_func_names = λ _. none;
  local_func_stack_usage = λ _. record { stack_usage_calculated = false; stack_usage = 0 };
  stack_usage_calculator_cookie = 0;
  stack_usage_calculator = none;
  dispatcher = none;
  dispatcher_validate = λ _. false;
  bounds_check_enabled = true;
  undefined_behavior_check_enabled = false;
  unwind_stack_extension_index = minus_one;
  pointer_secret = 0;
  data_relocation_function = none;
  data_relocation_user_data = 0;
  bounds_check_function = none;
  bounds_check_user_data = 0;
  instruction_limit = 0;
}
