-- ===== src/Validate/Cover.antt =====
-- What the validation of libs/ubpf/vm/ubpf_vm.c means for a program counter that lies anywhere in
-- the program.
use appclick_ubpf.Prelude.{ℕ, zero, suc, ◌+◌, ◌<◌, ◌≡◌, ◌≢◌, refl, ◌⊎◌, inl, inr, ◌∙◌}
use appclick_ubpf.Prelude.{some, List, get_elem?, get_elem?-lt, get_elem?-some, length}
use appclick_ubpf.Prelude.{Option-cases, arith}
use mathlib.Core.Path.{subst}
use appclick_ubpf.Isa.{Inst, Op, lddw, decode}
use appclick_ubpf.Vm.{Vm}
use appclick_ubpf.Validate.Spec.{IsValidProgram, IsValidInst, IsValidOp, Starts, here, next, skip}

-- The chain of starts can be followed by one more instruction.
Starts-next :
    (insts : List Inst) (i j : ℕ) (inst : Inst)
    → Starts insts i j
    → get_elem? insts j ≡ some inst
    → decode inst.opcode ≢ some lddw
    → Starts insts i (j + 1)
Starts-next insts i j inst here at h = next inst at h here
Starts-next insts i j inst (next x e n s) at h =
    next x e n (Starts-next insts (i + 1) j inst s at h)
Starts-next insts i j inst (skip x e n s) at h =
    skip x e n (Starts-next insts (i + 2) j inst s at h)

Starts-skip :
    (insts : List Inst) (i j : ℕ) (inst : Inst)
    → Starts insts i j
    → get_elem? insts j ≡ some inst
    → decode inst.opcode ≡ some lddw
    → Starts insts i (j + 2)
Starts-skip insts i j inst here at h = skip inst at h here
Starts-skip insts i j inst (next x e n s) at h =
    next x e n (Starts-skip insts (i + 1) j inst s at h)
Starts-skip insts i j inst (skip x e n s) at h =
    skip x e n (Starts-skip insts (i + 2) j inst s at h)

Op-cases : (op : Op) → (op ≡ lddw) ⊎ (op ≢ lddw)
Op-cases lddw = inl refl
Op-cases op = inr (λ e. cc)

-- Each index of the program is a start, or the second half of an LDDW that starts before it.
abbrev IsCovered : List Inst → ℕ → Type 0
IsCovered insts j =
    Starts insts 0 j
    ⊎ ((k : ℕ) × (inst : Inst) × (j ≡ k + 1)
        × Starts insts 0 k
        × (get_elem? insts k ≡ some inst)
        × (decode inst.opcode ≡ some lddw))

Starts-or_half :
    (insts : List Inst) (j : ℕ) (inst : Inst)
    → Starts insts 0 j
    → get_elem? insts j ≡ some inst
    → IsCovered insts (j + 1)
Starts-or_half insts j inst s at = elim (Option-cases (decode inst.opcode)) [
  | inl unknown ↦ inl (Starts-next insts 0 j inst s at (λ e. cc))
  | inr (op, known) ↦ elim (Op-cases op) [
    | inl wide ↦ inr (j, inst, refl, s, at, known ∙ rw wide)
    | inr other ↦ inl (Starts-next insts 0 j inst s at (λ e. other (cc)))
  ]
]

covered : (insts : List Inst) (j : ℕ) → j < length insts → IsCovered insts j
covered insts zero h = inl here
covered insts (suc j) h =
    let plus_one : j + 1 ≡ suc j = omega arith in
    elim (covered insts j (omega arith)) [
      | inl s ↦
          let (inst, at) = get_elem?-some insts j (omega arith) in
          subst (IsCovered insts) plus_one (Starts-or_half insts j inst s at)
      | inr (k, inst, e, s, at, wide) ↦
          let past : suc j ≡ k + 2 = omega arith in
          inl (rw past (Starts-skip insts 0 k inst s at wide))
    ]

-- What is checked behind an LDDW.
lddw_half :
    (vm : Vm) (insts : List Inst) (k : ℕ) (before : Inst) (op : Op)
    → decode before.opcode ≡ some op
    → decode before.opcode ≡ some lddw
    → IsValidOp vm insts k before op
    → (half : Inst) × (get_elem? insts (k + 1) ≡ some half) × (half.opcode ≡ 0)
lddw_half vm insts k before lddw known wide v = (v.1, v.2, v.3)
lddw_half vm insts k before op known wide v = absurd (cc)

-- In a valid program every instruction is valid, or is the second half of an LDDW, whose opcode
-- is 0.
pub valid_or_half :
    (vm : Vm) (insts : List Inst) (j : ℕ) (inst : Inst)
    → IsValidProgram vm insts
    → get_elem? insts j ≡ some inst
    → IsValidInst vm insts j inst ⊎ (inst.opcode ≡ 0)
valid_or_half vm insts j inst valid at = elim (covered insts j (get_elem?-lt insts j at)) [
  | inl s ↦ inl (valid.each j inst s at)
  | inr (k, before, e, s, at_k, wide) ↦
      let (op, known, ok, regs) = valid.each k before s at_k in
      let (half, at_half, zero_opcode) = lddw_half vm insts k before op known wide ok in
      let there : get_elem? insts (k + 1) ≡ some inst =
        subst (λ t. get_elem? insts t ≡ some inst) e at in
      let same : half ≡ inst = cc in inr (rw (← same) zero_opcode)
]
