-- ===== src/Load.antt =====
-- `ubpf_load` and `ubpf_unload_code` of libs/ubpf/vm/ubpf_vm.c.
pub mod Fill
pub mod Correct
pub mod Valid
use appclick_ubpf.Prelude.{ℕ, ◌+◌, ◌*◌, ◌/◌, ◌%◌, ◌^◌, Bool, true, false, ◌&&◌, Option, none, some}
use appclick_ubpf.Prelude.{List, [], ◌∷◌, ◌==◌, ◌!=◌, if◌then◌else◌, length, set}
use appclick_ubpf.Words.{u16, u32}
use appclick_ubpf.Isa.{Inst, call, opcode_of}
use appclick_ubpf.Isa.Encoding.{inst_of}
use appclick_ubpf.Vm.{Vm, Code, ebpf_stack_size}
use appclick_ubpf.Code.{store_instruction}
use appclick_ubpf.Validate.{ValidateError, validate}

pub data LoadError : Type 0 where
  stack_size_not_multiple_of_8 : LoadError
  code_already_loaded : LoadError
  code_len_not_multiple_of_8 : LoadError
  invalid_program : ValidateError → LoadError
  out_of_memory : LoadError

-- The bytes of `code` read as an array of `struct ebpf_inst`, eight to one, the first byte lowest.
unfoldable pub insts_of : List ℕ → List Inst
insts_of (a ∷ b ∷ c ∷ d ∷ e ∷ f ∷ g ∷ h ∷ rest) =
    inst_of
      (a + 2 ^ 8 * b + 2 ^ 16 * c + 2 ^ 24 * d + 2 ^ 32 * e + 2 ^ 40 * f + 2 ^ 48 * g + 2 ^ 56 * h)
    ∷ insts_of rest
insts_of _ = []

-- A `malloc` for the instructions gives an address, where something lies already.
abbrev pub Allocation : Type 0
Allocation = Option Code

abbrev pub replicate : ℕ → Bool → List Bool
replicate ℕ.zero b = []
replicate (ℕ.suc n) b = b ∷ replicate n b

-- `int_funcs[target] = true` where the instruction is a local call.
unfoldable pub mark_target : Vm → ℕ → Inst → Vm
mark_target vm i inst =
    if (inst.opcode == opcode_of call) && (inst.src == 1)
    then record vm { int_funcs = set vm.int_funcs (u32 (i + (inst.imm + 1))) true }
    else vm

-- The loop from index `i` on.
unfoldable pub fill : Vm → ℕ → List Inst → Vm
fill vm i [] = vm
fill vm i (inst ∷ rest) = fill (store_instruction (mark_target vm i inst) i inst) (i + 1) rest

-- Behind the validation: the allocations and the loop.
unfoldable pub install : Vm → List Inst → Allocation → Bool → Vm × Option LoadError
install vm insts none int_funcs_allocated = (vm, some out_of_memory)
install vm insts (some memory) int_funcs_allocated =
    let vm' = record vm { insts = some memory; num_insts = u16 (length insts) } in
    if int_funcs_allocated
    then (fill (record vm' { int_funcs = replicate vm'.num_insts false }) 0 insts, none)
    else (record vm' { int_funcs = [] }, some out_of_memory)

-- `insts_memory` and `int_funcs_allocated` are what `malloc` and `calloc` give. `none` is success.
unfoldable pub load : Vm → List ℕ → Allocation → Bool → Vm × Option LoadError
load vm code insts_memory int_funcs_allocated =
    if ebpf_stack_size % 8 != 0 then (vm, some stack_size_not_multiple_of_8) else elim vm.insts [
      | some _ ↦ (vm, some code_already_loaded)
      | none ↦
          if length code % 8 != 0
          then (vm, some code_len_not_multiple_of_8)
          else (let (vm', verdict) = validate vm (insts_of code) in
              elim verdict [
                | some e ↦ (vm', some (invalid_program e))
                | none ↦ install vm' (insts_of code) insts_memory int_funcs_allocated
              ])
    ]

-- The mapping of the jitted code is given back.
unfoldable pub unmap_jitted : Vm → Vm
unmap_jitted vm = elim vm.jitted [
  | none ↦ vm
  | some _ ↦ record vm { jitted = none; jitted_size = 0 }
]

unfoldable pub unload_code : Vm → Vm
unfolding unmap_jitted
unload_code vm =
    let vm' = unmap_jitted vm in
    elim vm'.insts [ none ↦ vm' | some _ ↦ record vm' { insts = none; num_insts = 0 } ]
