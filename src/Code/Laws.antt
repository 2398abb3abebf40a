-- ===== src/Code/Laws.antt =====
-- The scrambling of stored instructions loses nothing.
use appclick_ubpf.Prelude.{ℕ, ◌^◌, ◌<◌, ◌≡◌, ◌∙◌, ap, bit_xor, some, arith}
use appclick_ubpf.Prelude.{◌==◌, if◌then◌else◌, length, get_elem?-set}
use appclick_ubpf.Prelude.Bits.{bit_xor-lt, bit_xor_cancel, bit_xor_swap}
use appclick_ubpf.Isa.{Inst, IsInst}
use appclick_ubpf.Isa.Encoding.{value_of, inst_of-value_of, value_of-inst_of, value_of-lt}
use appclick_ubpf.Vm.{Vm, Code}
use appclick_ubpf.Code.{scramble, fetch_instruction, store_instruction}

-- Two keys, each used twice, cancel.
two_keys :
    (v a s : ℕ)
    → v < 2 ^ 64
    → a < 2 ^ 64
    → s < 2 ^ 64
    → bit_xor (bit_xor (bit_xor (bit_xor v a) s) a) s ≡ v
two_keys v a s hv ha hs =
    ap (λ t. bit_xor t s) (bit_xor_swap 64 (bit_xor v a) s a (bit_xor-lt 64 v a hv ha) hs ha)
    ∙ ap (λ t. bit_xor (bit_xor t s) s) (bit_xor_cancel 64 v a hv ha)
    ∙ bit_xor_cancel 64 v s hv hs

pub scramble_twice :
    (a s : ℕ) (i : Inst) → a < 2 ^ 64 → s < 2 ^ 64 → IsInst i → scramble a s (scramble a s i) ≡ i
unfolding scramble
scramble_twice a s i ha hs h =
    let v = value_of i in
    let hv = value_of-lt i h in
    let hw = bit_xor-lt 64 (bit_xor v a) s (bit_xor-lt 64 v a hv ha) hs in
    rw (value_of-inst_of (bit_xor (bit_xor v a) s) hw, two_keys v a s hv ha hs)
      (inst_of-value_of i h)

-- A machine with an instruction array: its keys are 64-bit numbers.
pub record HasCode (vm : Vm) (code : Code) : Type 0 where
  pub loaded : vm.insts ≡ some code
  pub address_fits : code.address < 2 ^ 64
  pub secret_fits : vm.pointer_secret < 2 ^ 64

-- In an instruction array at a 64-bit address, with a 64-bit secret: an instruction that is stored
-- at an index of the array is what a fetch at that index gives, and a fetch at any other index
-- gives what it gave before.
pub fetch-store :
    (vm : Vm) (code : Code) (pc : ℕ) (inst : Inst) (at : ℕ)
    → HasCode vm code
    → pc < length code.stored
    → IsInst inst
    → fetch_instruction (store_instruction vm pc inst) at
      ≡ (if pc == at then some inst else fetch_instruction vm at)
unfolding fetch_instruction store_instruction
fetch-store vm code pc inst at h in_range fits =
    rw (h.loaded, fetch_instruction, store_instruction)
      (ground (
        arith,
        get_elem?-set code.stored pc at (scramble code.address vm.pointer_secret inst),
        scramble_twice code.address vm.pointer_secret inst,
      ))
