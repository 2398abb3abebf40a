-- ===== src/Code.antt =====
-- The instruction store of libs/ubpf/vm/ubpf_vm.c: each instruction lies in memory xored with the
-- address of the array and a secret.
pub mod Laws
use appclick_ubpf.Prelude.{ℕ, ◌≡◌, bit_xor, Option, none, some, get_elem?, set}
use appclick_ubpf.Isa.{Inst}
use appclick_ubpf.Isa.Encoding.{value_of, inst_of}
use appclick_ubpf.Vm.{Vm, Code}

-- What both functions do to an instruction.
unfoldable pub scramble : ℕ → ℕ → Inst → Inst
scramble address secret inst = inst_of (bit_xor (bit_xor (value_of inst) address) secret)

-- `ubpf_fetch_instruction`; `none` is a read outside the array.
unfoldable pub fetch_instruction : Vm → ℕ → Option Inst
unfolding scramble
fetch_instruction vm pc = elim vm.insts [
  | none ↦ none
  | some code ↦ elim (get_elem? code.stored pc) [
    | none ↦ none
    | some inst ↦ some (scramble code.address vm.pointer_secret inst)
  ]
]

-- `ubpf_store_instruction`.
unfoldable pub store_instruction : Vm → ℕ → Inst → Vm
unfolding scramble
store_instruction vm pc inst = elim vm.insts [
  | none ↦ vm
  | some code ↦ record vm {
    insts = some (record code {
      stored = set code.stored pc (scramble code.address vm.pointer_secret inst);
    });
  }
]
