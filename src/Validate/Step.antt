-- ===== src/Validate/Step.antt =====
-- One round of the loop of `validate` decides whether the instruction is valid.
pub mod Round
use appclick_ubpf.Prelude.{ℕ, ◌+◌, ◌-◌, ◌%◌, ◌^◌, ◌≤◌, ◌<◌, ◌≡◌, refl, ◌≢◌, ◌⊎◌, inl, inr}
use appclick_ubpf.Prelude.{Bool, true, false, not, ◌&&◌, ◌||◌, Option, none, some, List, arith}
use appclick_ubpf.Prelude.{◌==◌, ◌!=◌, ltb, leb, if◌then◌else◌, Bool-cases, Option-cases}
use appclick_ubpf.Prelude.{length, get_elem?, get_elem?-lt, get_elem?-some}
use appclick_ubpf.Words.{u32, ℤ, pos, negsuc, signed32}
use appclick_ubpf.Isa.{Inst, IsInst, Op, alu, neg, le, be, ldx, st, stx, lddw, ja, jump, call, exit}
use appclick_ubpf.Isa.{Width, w32, w64, AluOp, add, mov, Source, decode}
use appclick_ubpf.Vm.{Vm}
use appclick_ubpf.StackUsage.{calculate_stack_usage_for_local_func}
use appclick_ubpf.Validate.{
  ValidateError, Verdict, passed, rejected, add_i16, check_endian, check_lddw,
}
use appclick_ubpf.Validate.{check_target, check_jump, is_null_function, check_external_call}
use appclick_ubpf.Validate.{check_local_target, check_call, check_op, check_registers, check_inst}
use appclick_ubpf.Validate.Spec.{is_callable, is_aligned_usage, Lands, IsValidJump, IsValidCall}
use appclick_ubpf.Validate.Spec.{IsValidOp, takes_r10, is_lddw, IsValidRegisters, IsValidInst}

-- A verdict that passes, with these marks, exactly where `P` holds.
pub data Decides (P : Type 0) (store skip : Bool) : Verdict → Type 0 where
  accepts : P → Decides P store skip (passed store skip)
  refuses : {e : ValidateError} → ¬ P → Decides P store skip (rejected e)

-- The target of a jump, as the code computes it.
Lands-add_i16 : (n offset t : ℕ) → offset < 2 ^ 16 → add_i16 n offset ≡ pos t → Lands n offset t
Lands-add_i16 n offset t fits e = ground arith

Lands-unique :
    (n offset t s : ℕ) → offset < 2 ^ 16 → add_i16 n offset ≡ pos t → Lands n offset s → s ≡ t
Lands-unique n offset t s fits e l = ground arith

not-Lands : (n offset t s : ℕ) → add_i16 n offset ≡ negsuc t → ¬ Lands n offset s
not-Lands n offset t s e l = ground arith

module _ (vm : Vm) (insts : List Inst) (i : ℕ) (inst : Inst) (fits : IsInst inst) where
  endian-Decides :
      Decides
        ((inst.imm ≡ 16) ⊎ ((inst.imm ≡ 32) ⊎ (inst.imm ≡ 64)))
        false
        false
        (check_endian insts i inst)
  unfolding check_endian
  endian-Decides = elim (Bool-cases ((inst.imm != 16) && ((inst.imm != 32) && (inst.imm != 64)))) [
    | inl bad ↦ rw bad (refuses (ground arith))
    | inr good ↦ rw good (accepts (ground arith))
  ]

  lddw-Decides : Decides (IsValidOp vm insts i inst lddw) false true (check_lddw insts i inst)
  unfolding check_lddw
  lddw-Decides = elim (Bool-cases (inst.src != 0)) [
    | inl bad ↦ rw bad (refuses (ground arith))
    | inr good ↦ rw good (elim (Option-cases (get_elem? insts (i + 1))) [
      | inl missing ↦ rw missing (refuses (ground arith))
      | inr (next, found) ↦ rw found (elim (Bool-cases (next.opcode != 0)) [
        | inl other ↦ rw other (refuses (ground arith))
        | inr zero_opcode ↦ rw zero_opcode (accepts (ground arith, next, refl, ground arith))
      ])
    ])
  ]

  -- A jump by the offset reaches an instruction with an opcode.
  abbrev Reaches : Type 0
  Reaches =
      (t : ℕ) × (target : Inst) × Lands (i + 1) inst.offset t
      × (get_elem? insts t ≡ some target)
      × (target.opcode ≢ 0)

  target-Decides :
      (z : ℤ)
      → add_i16 (i + 1) inst.offset ≡ z
      → Decides Reaches false false (check_target insts i z)
  unfolding check_target
  target-Decides (negsuc n) e =
      refuses (λ (t, target, lands, _, _). not-Lands (i + 1) inst.offset n t e lands)
  target-Decides (pos n) e = elim (Option-cases (get_elem? insts n)) [
    | inl missing ↦
        rw (missing, check_target)
          (refuses (λ (t, target, lands, got, _).
            ground (arith, Lands-unique (i + 1) inst.offset n t fits.offset_fits e lands)))
    | inr (target, found) ↦ elim (Bool-cases (target.opcode == 0)) [
      | inl middle ↦
          rw (found, check_target, middle)
            (refuses (λ (t, target', lands, got, has_opcode).
              ground (arith, Lands-unique (i + 1) inst.offset n t fits.offset_fits e lands)))
      | inr whole ↦
          rw (found, check_target, whole)
            (accepts (
              n,
              target,
              Lands-add_i16 (i + 1) inst.offset n fits.offset_fits e,
              found,
              ground arith,
            ))
    ]
  ]

  jump-Decides : Decides (IsValidJump insts i inst) false false (check_jump insts i inst)
  unfolding check_jump
  jump-Decides = elim (Bool-cases (inst.offset == 2 ^ 16 - 1)) [
    | inl bad ↦ rw bad (refuses (λ valid. valid.0 (ground arith)))
    | inr good ↦ rw good (both (ground arith) (target-Decides (add_i16 (i + 1) inst.offset) refl))
  ]
    where
      both :
          {v : Verdict}
          → inst.offset ≢ 2 ^ 16 - 1
          → Decides Reaches false false v
          → Decides (IsValidJump insts i inst) false false v
      both differs (accepts (t, target, lands, got, has)) =
          accepts (differs, t, target, lands, got, has)
      both differs (refuses no_reach) =
          refuses (λ (_, t, target, lands, got, has). no_reach (t, target, lands, got, has))

  external-Decides :
      Decides
        ((inst.imm < 64) × (is_callable vm inst.imm ≡ true))
        false
        false
        (check_external_call insts vm i inst)
  unfolding check_external_call
  external-Decides = elim (Bool-cases (leb (2 ^ 31) inst.imm || leb 64 inst.imm)) [
    | inl bad ↦ rw bad (refuses (λ (small, _). ground arith))
    | inr good ↦ rw good (elim (Option-cases vm.dispatcher) [
      | inl no_dispatcher ↦ elim (Option-cases (vm.ext_funcs inst.imm)) [
        | inl null ↦ rw (no_dispatcher, null, is_null_function) (refuses (λ (_, called). cc))
        | inr (f, set) ↦ rw (no_dispatcher, set, is_null_function) (accepts (ground arith, refl))
      ]
      | inr (d, dispatches) ↦ elim (Bool-cases (vm.dispatcher_validate inst.imm)) [
        | inl known ↦ rw (dispatches, known) (accepts (ground arith, refl))
        | inr unknown ↦ rw (dispatches, unknown) (refuses (λ (_, called). cc))
      ]
    ])
  ]

  -- What the call of the stack usage calculator leaves.
  abbrev pub asked : ℕ → Vm × Bool
  asked t = calculate_stack_usage_for_local_func vm t

  pub asked-aligned : (t : ℕ) → (asked t).1 ≡ is_aligned_usage vm t
  unfolding calculate_stack_usage_for_local_func
  asked-aligned t = refl

  abbrev call_target : ℕ
  call_target = (i + (inst.imm + 1)) % 2 ^ 32

  local-Decides :
      length insts < 65536
      → Decides
          ((call_target < length insts) × (is_aligned_usage vm call_target ≡ true))
          false
          false
          (check_local_target insts vm i (signed32 (u32 (i + (inst.imm + 1))))).1
  unfolding check_local_target
  local-Decides short = elim (Bool-cases (ltb call_target (2 ^ 31))) [
    | inr negative ↦ rw (negative, check_local_target) (refuses (λ (inside, _). ground arith))
    | inl positive ↦ elim (Bool-cases (leb (length insts) call_target)) [
      | inl outside ↦
          rw (positive, check_local_target, outside) (refuses (λ (inside, _). ground arith))
      | inr inside ↦ elim (Bool-cases (is_aligned_usage vm call_target)) [
        | inl aligned ↦
            rw (positive, check_local_target, inside, asked-aligned call_target, aligned)
              (accepts (ground arith, refl))
        | inr odd ↦
            rw (positive, check_local_target, inside, asked-aligned call_target, odd)
              (refuses (λ (_, called). cc))
      ]
    ]
  ]
