-- ===== src/Jit/Driver.antt =====
-- libs/ubpf/vm/ubpf_jit.c: the functions that compile a program and keep or copy the code.
pub mod Laws
pub mod Generator
use appclick_ubpf.Prelude.{
  ℕ, ◌+◌, ◌/◌, Bool, true, false, not, ◌&&◌, ◌||◌, Option, none, some, List, [], ◌∷◌,
}
use appclick_ubpf.Prelude.{ltb, if◌then◌else◌}
use appclick_ubpf.Vm.{
  Vm, Code, JitMode, basic_jit_mode, extended_jit_mode, JitResult, CompileResult,
  jit_compile_success, jit_compile_failure,
}
use appclick_ubpf.Jit.State.{Message}
use appclick_ubpf.Jit.Resolve.{Compiled}

-- The messages of this file, and those of the code generators.
pub data DriverMessage : Type 0 where
  from_translation : Message → DriverMessage
  no_jit_on_target code_not_loaded calloc_failed map_failed protect_failed : DriverMessage
  not_compiled buffer_too_small : DriverMessage

-- `vm->jit_translate`: from the machine, the buffer, its size and the mode.
abbrev pub Translator : Type 0
Translator = Vm → (ℕ → ℕ) → ℕ → JitMode → Option Compiled

abbrev pub is_success : CompileResult → Bool
is_success jit_compile_success = true
is_success jit_compile_failure = false

abbrev pub same_mode : JitMode → JitMode → Bool
same_mode basic_jit_mode basic_jit_mode = true
same_mode extended_jit_mode extended_jit_mode = true
same_mode basic_jit_mode extended_jit_mode = false
same_mode extended_jit_mode basic_jit_mode = false

abbrev pub is_set {ℓ} : {A : Type ℓ} → Option A → Bool
is_set none = false
is_set (some x) = true

-- What a translation changes: the machine, `*errmsg`, the buffer, `*size`; and whether it returns 0.
pub record Translation : Type 0 where
  pub vm : Vm
  pub errmsg : Option DriverMessage
  pub buffer : ℕ → ℕ
  pub size : ℕ
  pub ok : Bool

unfoldable pub message_or : Option Message → Option DriverMessage → Option DriverMessage
message_or none errmsg = errmsg
message_or (some m) errmsg = some (from_translation m)

unfoldable pub translated_by : Vm → Option DriverMessage → Option Compiled → Option Translation
translated_by vm errmsg none = none
translated_by vm errmsg (some c) = some (record {
  vm = record vm { jitted_result = c.result };
  errmsg = message_or c.errmsg errmsg;
  buffer = c.buffer;
  size = c.size;
  ok = is_success c.result.compile_result;
})

-- `ubpf_set_jit_code_size`.
unfoldable pub set_jit_code_size : Vm → ℕ → Vm
set_jit_code_size vm code_size = record vm { jitter_buffer_size = code_size }

-- Which calls of the allocator and the platform succeed.
pub record Platform : Type 0 where
  pub buffer_given : Bool
  pub page_mapped : Bool
  pub attributes_set : Bool

-- What `ubpf_compile_ex` leaves: the machine, `*errmsg` where it was written, the address that it
-- returns, the mappings that it ended, and the bytes that it put at the address.
pub record Compilation : Type 0 where
  pub vm : Vm
  pub errmsg : Option DriverMessage
  pub returned : Option ℕ
  pub unmapped : List (ℕ × ℕ)
  pub code : Option (ℕ → ℕ)

-- The fixed address of the code.
abbrev pub jit_address : ℕ
jit_address = 0x80000000

-- `if (vm->jitted) { munmap … }`.
unfoldable pub drop_jitted : Vm → Vm × List (ℕ × ℕ)
drop_jitted vm = elim vm.jitted [
  | none ↦ (vm, [])
  | some address ↦ (record vm { jitted = none; jitted_size = 0 }, (address, vm.jitted_size) ∷ [])
]

-- `out:` after a failure. `jitted` is NULL there, so nothing is unmapped.
unfoldable pub give_up : Vm → List (ℕ × ℕ) → Option DriverMessage → Compilation
give_up vm unmapped errmsg = record {
  vm = vm;
  errmsg = errmsg;
  returned = vm.jitted;
  unmapped = unmapped;
  code = none;
}

-- From the mapping of the pages on.
unfoldable pub install_code : Platform → List (ℕ × ℕ) → Translation → Compilation
install_code platform unmapped t =
    if not platform.page_mapped
    then give_up t.vm unmapped (some map_failed)
    else if not platform.attributes_set
    then give_up t.vm unmapped (some protect_failed)
    else record {
      vm = record t.vm { jitted = some jit_address; jitted_size = t.size };
      errmsg = t.errmsg;
      returned = some jit_address;
      unmapped = unmapped;
      code = some t.buffer;
    }

unfoldable pub compile_translated :
    Vm → Platform → List (ℕ × ℕ) → Option Translation → Option Compilation
compile_translated vm platform unmapped none = none
compile_translated vm platform unmapped (some t) =
    if not t.ok
    then some (give_up t.vm unmapped t.errmsg)
    else some (install_code platform unmapped t)

-- `vm->jitted && … == UBPF_JIT_COMPILE_SUCCESS && … == mode`.
unfoldable pub is_up_to_date : Vm → JitMode → Bool
is_up_to_date vm mode =
    is_set vm.jitted
    && (is_success vm.jitted_result.compile_result && same_mode vm.jitted_result.jit_mode mode)

module _ (jit_translate : Translator) where
  -- `ubpf_translate_ex`; `none` is a read outside the array of instructions.
  unfoldable pub translate_ex :
      Vm → (ℕ → ℕ) → ℕ → Option DriverMessage → JitMode → Option Translation
  translate_ex vm buffer size errmsg mode =
      translated_by vm errmsg (jit_translate vm buffer size mode)

  -- `ubpf_translate`.
  unfoldable pub ubpf_translate : Vm → (ℕ → ℕ) → ℕ → Option DriverMessage → Option Translation
  ubpf_translate vm buffer size errmsg = translate_ex vm buffer size errmsg basic_jit_mode

  -- `ubpf_compile_ex`, with `errmsg` before the call.
  unfoldable pub compile_ex : Platform → Vm → Option DriverMessage → JitMode → Option Compilation
  compile_ex platform vm errmsg mode =
      if is_up_to_date vm mode
      then some
          (record { vm = vm; errmsg = errmsg; returned = vm.jitted; unmapped = []; code = none })
      else (let (vm', unmapped) = drop_jitted vm in
          if not (is_set vm'.insts)
          then some (record {
            vm = vm';
            errmsg = some code_not_loaded;
            returned = none;
            unmapped = unmapped;
            code = none;
          })
          else if not platform.buffer_given
          then some (give_up vm' unmapped (some calloc_failed))
          else compile_translated vm' platform unmapped
              (translate_ex vm' (λ _. 0) vm'.jitter_buffer_size none mode))

  -- `ubpf_compile`.
  unfoldable pub compile : Platform → Vm → Option DriverMessage → Option Compilation
  compile platform vm errmsg = compile_ex platform vm errmsg basic_jit_mode

-- `ubpf_translate_null`, on a target without a code generator. What it does not set is given by
-- `unset`.
unfoldable pub translate_null : JitResult → Vm → (ℕ → ℕ) → ℕ → JitMode → JitResult × DriverMessage
translate_null unset vm buffer size mode = (
  record unset { compile_result = jit_compile_failure; external_dispatcher_offset = 0 },
  no_jit_on_target,
)

-- `ubpf_copy_jit`: what it returns, `*errmsg`, and the bytes of the caller's buffer; `code` are those
-- of the code that `vm->jitted` points to.
unfoldable pub copy_jit : Vm → (ℕ → ℕ) → (ℕ → ℕ) → ℕ → Bool × Option DriverMessage × (ℕ → ℕ)
copy_jit vm code buffer size =
    if not (is_success vm.jitted_result.compile_result) || not (is_set vm.jitted)
    then (false, some not_compiled, buffer)
    else if ltb size vm.jitted_size
    then (false, some buffer_too_small, buffer)
    else (true, none, λ i. if ltb i vm.jitted_size then code i else buffer i)
