-- ===== src/Validate/Spec.antt =====
-- What a program must satisfy to be loaded, said without a loop and without the messages.
use appclick_ubpf.Prelude.{ℕ, ◌+◌, ◌-◌, ◌%◌, ◌^◌, ◌≤◌, ◌<◌, ◌≡◌, ◌≢◌, ◌⊎◌, Bool, true, false}
use appclick_ubpf.Prelude.{◌==◌}
use appclick_ubpf.Prelude.{none, some, List, length, get_elem?}
use appclick_ubpf.Isa.{
  Inst, w64, mov, Op, alu, neg, le, be, ldx, st, stx, lddw, ja, jump, call, exit,
}
use appclick_ubpf.Isa.{decode}
use appclick_ubpf.Vm.{Vm}
use appclick_ubpf.StackUsage.{calculated}

-- An external function that can be called: the dispatcher's, or else a registered one.
abbrev pub is_callable : Vm → ℕ → Bool
is_callable vm imm = elim vm.dispatcher [
  | some _ ↦ vm.dispatcher_validate imm
  | none ↦ elim (vm.ext_funcs imm) [ none ↦ false | some _ ↦ true ]
]

-- The stack usage of the local function at `pc` is a multiple of 16.
abbrev pub is_aligned_usage : Vm → ℕ → Bool
is_aligned_usage vm pc = (calculated vm pc).stack_usage % 16 == 0

-- `t` is `n + offset` for a signed 16-bit offset.
abbrev pub Lands : (n offset t : ℕ) → Type 0
Lands n offset t =
    ((offset < 2 ^ 15) × (t ≡ n + offset)) ⊎ ((2 ^ 15 ≤ offset) × (t + 2 ^ 16 ≡ n + offset))

-- The instruction at `i` jumps to an instruction of the program that has an opcode, and not to
-- itself.
abbrev pub IsValidJump : List Inst → ℕ → Inst → Type 0
IsValidJump insts i inst =
    (inst.offset ≢ 2 ^ 16 - 1)
    × (t : ℕ) × (target : Inst) × Lands (i + 1) inst.offset t
    × (get_elem? insts t ≡ some target)
    × (target.opcode ≢ 0)

-- An external call names a callable function; a local call goes into the program, to a function
-- with an aligned stack usage.
abbrev pub IsValidCall : Vm → List Inst → ℕ → Inst → Type 0
IsValidCall vm insts i inst =
    ((inst.src ≡ 0) × (inst.imm < 64) × (is_callable vm inst.imm ≡ true))
    ⊎ ((inst.src ≡ 1)
        × ((i + (inst.imm + 1)) % 2 ^ 32 < length insts)
        × (is_aligned_usage vm ((i + (inst.imm + 1)) % 2 ^ 32) ≡ true))

abbrev pub IsValidOp : Vm → List Inst → ℕ → Inst → Op → Type 0
IsValidOp vm insts i inst le = (inst.imm ≡ 16) ⊎ ((inst.imm ≡ 32) ⊎ (inst.imm ≡ 64))
IsValidOp vm insts i inst be = (inst.imm ≡ 16) ⊎ ((inst.imm ≡ 32) ⊎ (inst.imm ≡ 64))
IsValidOp vm insts i inst lddw =
    (inst.src ≡ 0) × (next : Inst) × (get_elem? insts (i + 1) ≡ some next) × (next.opcode ≡ 0)
IsValidOp vm insts i inst ja = IsValidJump insts i inst
IsValidOp vm insts i inst (jump w c s) = IsValidJump insts i inst
IsValidOp vm insts i inst call = IsValidCall vm insts i inst
IsValidOp vm insts i inst (alu w o s) = Unit
IsValidOp vm insts i inst (neg w) = Unit
IsValidOp vm insts i inst (ldx z) = Unit
IsValidOp vm insts i inst (st z) = Unit
IsValidOp vm insts i inst (stx z) = Unit
IsValidOp vm insts i inst exit = Unit

-- The operations whose destination may be register 10: the stores, and the 64-bit moves.
abbrev pub takes_r10 : Op → Bool
takes_r10 (alu w64 mov s) = true
takes_r10 (st z) = true
takes_r10 (stx z) = true
takes_r10 _ = false

abbrev pub is_lddw : Op → Bool
is_lddw lddw = true
is_lddw _ = false

abbrev pub IsValidRegisters : Inst → Op → Type 0
IsValidRegisters inst op =
    (inst.src ≤ 10) × ((inst.dst ≤ 9) ⊎ ((inst.dst ≡ 10) × (takes_r10 op ≡ true)))

-- The instruction at `i` has a known operation with valid operands.
abbrev pub IsValidInst : Vm → List Inst → ℕ → Inst → Type 0
IsValidInst vm insts i inst =
    (op : Op) × (decode inst.opcode ≡ some op)
    × IsValidOp vm insts i inst op
    × IsValidRegisters inst op

-- `Starts insts i j`: from the start of an instruction at `i` the instructions follow one another
-- to a start at `j`, where LDDW takes two places.
pub data Starts (insts : List Inst) : ℕ → ℕ → Type 0 where
  here : {i : ℕ} → Starts insts i i
  next :
      {i j : ℕ} (inst : Inst)
      → get_elem? insts i ≡ some inst
      → decode inst.opcode ≢ some lddw
      → Starts insts (i + 1) j
      → Starts insts i j
  skip :
      {i j : ℕ} (inst : Inst)
      → get_elem? insts i ≡ some inst
      → decode inst.opcode ≡ some lddw
      → Starts insts (i + 2) j
      → Starts insts i j

-- A program that can be loaded.
pub record IsValidProgram (vm : Vm) (insts : List Inst) : Type 0 where
  pub fits : length insts < 65536
  pub main_usage : is_aligned_usage vm 0 ≡ true
  pub each :
      (j : ℕ) (inst : Inst)
      → Starts insts 0 j
      → get_elem? insts j ≡ some inst
      → IsValidInst vm insts j inst
