-- ===== src/Validate/Step/Round.antt =====
-- The verdict of a whole round of `validate`: the call, the `switch`, and the registers.
use appclick_ubpf.Prelude.{ℕ, ◌<◌, ◌≡◌, inl, inr}
use appclick_ubpf.Prelude.{Bool, false, not, ◌&&◌, none, some, List, arith}
use appclick_ubpf.Prelude.{◌==◌, ltb, Bool-cases, length}
use appclick_ubpf.Isa.{Inst, IsInst, Op, alu, neg, le, be, ldx, st, stx, lddw, ja, jump, call, exit}
use appclick_ubpf.Isa.{w32, w64, add, mov}
use appclick_ubpf.Isa.{decode}
use appclick_ubpf.Vm.{Vm}
use appclick_ubpf.Validate.{Verdict, rejected, unknown_opcode}
use appclick_ubpf.Validate.{check_call, check_op, check_registers, check_inst}
use appclick_ubpf.Validate.Spec.{IsValidCall}
use appclick_ubpf.Validate.Spec.{IsValidOp, takes_r10, is_lddw, IsValidRegisters}
use appclick_ubpf.Validate.Step.{Decides, accepts, refuses, endian-Decides, lddw-Decides}
use appclick_ubpf.Validate.Step.{jump-Decides, external-Decides, local-Decides}

Decides-map :
    {P Q : Type 0} {store skip : Bool} {v : Verdict}
    → (P → Q)
    → (Q → P)
    → Decides P store skip v
    → Decides Q store skip v
Decides-map to from (accepts p) = accepts (to p)
Decides-map to from (refuses no_p) = refuses (λ q. no_p (from q))

module _ (vm : Vm) (insts : List Inst) (i : ℕ) (inst : Inst) (fits : IsInst inst)
    (short : length insts < 65536) where
  call-Decides : Decides (IsValidCall vm insts i inst) false false (check_call insts vm i inst).1
  unfolding check_call
  call-Decides = elim (Bool-cases (inst.src == 0)) [
    | inl external ↦ rw external (
        Decides-map (λ v. inl (ground arith, v.0, v.1))
          (elim [ inl v ↦ (v.1, v.2) | inr v ↦ absurd (ground arith) ])
          (external-Decides vm insts i inst fits))
    | inr not_external ↦ elim (Bool-cases (inst.src == 1)) [
      | inl local ↦
          rw (not_external, local)
            (Decides-map (λ v. inr (ground arith, v.0, v.1))
              (elim [ inl v ↦ absurd (ground arith) | inr v ↦ (v.1, v.2) ])
              (local-Decides vm insts i inst fits short))
      | inr neither ↦ elim (Bool-cases (inst.src == 2)) [
        | inl btf ↦ rw (not_external, neither, btf) (refuses (λ v. ground arith))
        | inr other ↦ rw (not_external, neither, other) (refuses (λ v. ground arith))
      ]
    ]
  ]

  op-Decides :
      (op : Op)
      → Decides
          (IsValidOp vm insts i inst op)
          (takes_r10 op)
          (is_lddw op)
          (check_op insts vm i inst op).1
  unfolding check_op
  op-Decides (alu w64 mov s) = accepts tt
  op-Decides (alu w64 add s) = accepts tt
  op-Decides (alu w64 _ s) = accepts tt
  op-Decides (alu w32 o s) = accepts tt
  op-Decides (neg w) = accepts tt
  op-Decides le = endian-Decides vm insts i inst fits
  op-Decides be = endian-Decides vm insts i inst fits
  op-Decides (ldx z) = accepts tt
  op-Decides (st z) = accepts tt
  op-Decides (stx z) = accepts tt
  op-Decides lddw = lddw-Decides vm insts i inst fits
  op-Decides ja = jump-Decides vm insts i inst fits
  op-Decides (jump w c s) = jump-Decides vm insts i inst fits
  op-Decides call = call-Decides
  op-Decides exit = accepts tt

  registers-Decides :
      {P : Type 0} (op : Op) {skip : Bool} {v : Verdict}
      → Decides P (takes_r10 op) skip v
      → Decides (P × IsValidRegisters inst op) (takes_r10 op) skip (check_registers insts i inst v)
  unfolding check_registers
  registers-Decides op (refuses no_p) = refuses (λ both. no_p both.0)
  registers-Decides op (accepts p) = elim (Bool-cases (ltb 10 inst.src)) [
    | inl bad_source ↦ rw bad_source (refuses (λ both. ground arith))
    | inr good_source ↦
        elim (Bool-cases (ltb 9 inst.dst && not (takes_r10 op && (inst.dst == 10)))) [
          | inl bad ↦ rw (good_source, bad) (refuses (λ both. ground arith))
          | inr good ↦ rw (good_source, good) (accepts (p, (ground arith, ground arith)))
        ]
  ]

  -- What a round says: nothing valid has an unknown opcode, and else the verdict decides.
  pub inst-Decides :
      (op : Op)
      → decode inst.opcode ≡ some op
      → Decides
          (IsValidOp vm insts i inst op × IsValidRegisters inst op)
          (takes_r10 op)
          (is_lddw op)
          (check_inst insts vm i inst).1
  unfolding check_inst
  inst-Decides op known = rw (known, check_inst) (registers-Decides op (op-Decides op))

  pub check_inst-unknown :
      decode inst.opcode ≡ none → (check_inst insts vm i inst).1 ≡ rejected (unknown_opcode i)
  unfolding check_inst
  check_inst-unknown unknown = rw (unknown, check_inst)
