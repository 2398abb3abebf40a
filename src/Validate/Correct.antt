-- ===== src/Validate/Correct.antt =====
-- `validate` accepts the programs that the specification calls valid, and no others.
use appclick_ubpf.Prelude.{ℕ, suc, ◌+◌, ◌-◌, ◌≤◌, ◌<◌, ◌≡◌, refl, ◌≢◌, ◌⊎◌, inl, inr, ◌↔◌, ◌∙◌, ap}
use appclick_ubpf.Prelude.{Bool, true, false, none, some, List, [], ◌∷◌, arith}
use appclick_ubpf.Prelude.{leb, Bool-cases, Option-cases, length, get_elem?}
use mathlib.Core.Path.{subst}
use appclick_ubpf.Isa.{Inst, IsInst, Op, lddw, call, decode}
use appclick_ubpf.Vm.{Vm}
use appclick_ubpf.StackUsage.{calculate_stack_usage_for_local_func}
use appclick_ubpf.Validate.{
  ValidateError, Verdict, passed, rejected, unknown_opcode, check_inst, check_from, validate,
}
use appclick_ubpf.Validate.Spec.{
  is_aligned_usage, takes_r10, is_lddw, IsValidOp, IsValidRegisters, IsValidInst, IsValidProgram,
}
use appclick_ubpf.Validate.Spec.{Starts, here, next, skip}
use appclick_ubpf.Validate.View.{SameView, SameView-sym, SameView-trans, asked-SameView}
use appclick_ubpf.Validate.View.{check_inst-SameView, SameView-IsValidInst}
use appclick_ubpf.Validate.Step.{Decides, accepts, refuses}
use appclick_ubpf.Validate.Step.Round.{inst-Decides, check_inst-unknown}

Decides-cases :
    {P : Type 0} {store skip : Bool} {v : Verdict}
    → Decides P store skip v
    → (¬ P × ((e : ValidateError) × (v ≡ rejected e))) ⊎ (P × (v ≡ passed store skip))
Decides-cases (accepts p) = inr (p, refl)
Decides-cases (refuses {e} no_p) = inl (no_p, (e, refl))

asked_aligned :
    (vm : Vm) (t : ℕ) → (calculate_stack_usage_for_local_func vm t).1 ≡ is_aligned_usage vm t
unfolding calculate_stack_usage_for_local_func
asked_aligned vm t = refl

is_lddw-false : (op : Op) → op ≢ lddw → is_lddw op ≡ false
is_lddw-false lddw h = absurd (h refl)
is_lddw-false _ h = refl

abbrev pub IsFit : List Inst → Type 0
IsFit insts = (j : ℕ) (inst : Inst) → get_elem? insts j ≡ some inst → IsInst inst

module _ (insts : List Inst) (fit : IsFit insts) (short : length insts < 65536) where
  -- `rest` is what is left of the program at `i`.
  abbrev IsRest : ℕ → List Inst → Type 0
  IsRest i rest = (n : ℕ) → get_elem? insts (i + n) ≡ get_elem? rest n

  IsRest-tail : (i : ℕ) (x : Inst) (xs : List Inst) → IsRest i (x ∷ xs) → IsRest (i + 1) xs
  IsRest-tail i x xs r n =
      let e : i + 1 + n ≡ i + suc n = omega arith in ap (get_elem? insts) e ∙ r (suc n)

  IsRest-head : (i : ℕ) (rest : List Inst) → IsRest i rest → get_elem? insts i ≡ get_elem? rest 0
  IsRest-head i rest r = let e : i ≡ i + 0 = omega arith in ap (get_elem? insts) e ∙ r 0

  -- A round refuses an instruction that is not valid, or passes over a valid one.
  round-cases :
      (vm : Vm) (i : ℕ) (x : Inst)
      → IsInst x
      → (¬ IsValidInst vm insts i x
          × (e : ValidateError) × ((check_inst insts vm i x).1 ≡ rejected e))
        ⊎ ((op : Op) × (decode x.opcode ≡ some op)
            × IsValidInst vm insts i x
            × ((check_inst insts vm i x).1 ≡ passed (takes_r10 op) (is_lddw op)))
  round-cases vm i x fits = elim (Option-cases (decode x.opcode)) [
    | inl unknown ↦ inl (
      (λ v. ground (arith, v.1)),
      unknown_opcode i,
      check_inst-unknown vm insts i x fits short unknown,
    )
    | inr (op, known) ↦ elim (Decides-cases (inst-Decides vm insts i x fits short op known)) [
      | inl (bad, e) ↦ inl ((λ v. bad (known_op v op known)), e.0, e.1)
      | inr (good, e) ↦ inr (op, known, (op, known, good.0, good.1), e)
    ]
  ]
    where
      known_op :
          (v : IsValidInst vm insts i x) (op : Op)
          → decode x.opcode ≡ some op
          → IsValidOp vm insts i x op × IsValidRegisters x op
      known_op v op known =
          let same : v.0 ≡ op = cc in
          subst (λ o. IsValidOp vm insts i x o × IsValidRegisters x o) same (v.2, v.3)

  -- A round that passes goes on with the next instruction, or behind it.
  check_from-passed :
      (vm : Vm) (i : ℕ) (x : Inst) (xs : List Inst) {store skips : Bool}
      → (check_inst insts vm i x).1 ≡ passed store skips
      → check_from insts vm i (x ∷ xs) false
        ≡ check_from insts (check_inst insts vm i x).0 (i + 1) xs skips
  unfolding check_from
  check_from-passed vm i x xs e = rw (e, check_from)

  check_from-rejected :
      (vm : Vm) (i : ℕ) (x : Inst) (xs : List Inst) {bad : ValidateError}
      → (check_inst insts vm i x).1 ≡ rejected bad
      → (check_from insts vm i (x ∷ xs) false).1 ≡ some bad
  unfolding check_from
  check_from-rejected vm i x xs e = rw (e, check_from)

  IsRest-nil : (i j : ℕ) → i ≤ j → IsRest i [] → get_elem? insts j ≡ none
  IsRest-nil i j h r = let e : j ≡ i + (j - i) = omega arith in ap (get_elem? insts) e ∙ r (j - i)

  Starts-le : {i j : ℕ} → Starts insts i j → i ≤ j
  Starts-le here = omega arith
  Starts-le (next x at other st) = omega (arith, Starts-le st)
  Starts-le (skip x at double st) = omega (arith, Starts-le st)

  -- Where the next round is.
  abbrev resume : Bool → ℕ → ℕ
  resume true i = i + 1
  resume false i = i

  -- From the start of `x` one is there, or goes on to where the next round is.
  Starts-cases :
      (i j : ℕ) (x : Inst) (op : Op)
      → get_elem? insts i ≡ some x
      → decode x.opcode ≡ some op
      → Starts insts i j
      → (i ≡ j) ⊎ Starts insts (resume (is_lddw op) (i + 1)) j
  Starts-cases i j x op at known here = inl refl
  Starts-cases i j x op at known (next y at' other st) =
      inr (rw (is_lddw-false op (λ e. other (cc))) st)
  Starts-cases i j x op at known (skip y at' double st) =
      let e : op ≡ lddw = cc in
      let two : i + 2 ≡ i + 1 + 1 = omega arith in inr (rw e (subst (λ k. Starts insts k j) two st))

  Starts-back :
      (i j : ℕ) (x : Inst) (op : Op)
      → get_elem? insts i ≡ some x
      → decode x.opcode ≡ some op
      → Starts insts (resume (is_lddw op) (i + 1)) j
      → Starts insts i j
  Starts-back i j x lddw at known st =
      let two : i + 1 + 1 ≡ i + 2 = omega arith in
      skip x at known (subst (λ k. Starts insts k j) two st)
  Starts-back i j x call at known st = next x at (λ e. cc) st
  Starts-back i j x _ at known st = next x at (λ e. cc) st

  module _ (vm₀ : Vm) where
    -- The loop accepts only where every instruction that starts behind `i` is valid.
    loop_sound :
        (rest : List Inst) (i : ℕ) (vm : Vm) (skips : Bool)
        → IsRest i rest
        → SameView vm₀ vm
        → (check_from insts vm i rest skips).1 ≡ none
        → (j : ℕ) (inst : Inst) → Starts insts (resume skips i) j
        → get_elem? insts j ≡ some inst
        → IsValidInst vm₀ insts j inst
    unfolding check_from
    loop_sound [] i vm true r same ok j inst st got =
        cc (IsRest-nil i j (omega (arith, Starts-le st)) r)
    loop_sound [] i vm false r same ok j inst st got =
        cc (IsRest-nil i j (omega (arith, Starts-le st)) r)
    loop_sound (x ∷ xs) i vm true r same ok j inst st got =
        loop_sound xs (i + 1) vm false (IsRest-tail i x xs r) same ok j inst st got
    loop_sound (x ∷ xs) i vm false r same ok j inst st got =
        let at = IsRest-head i (x ∷ xs) r in
        elim (round-cases vm i x (fit i x at)) [
          | inl (bad, e, rejects) ↦ cc (check_from-rejected vm i x xs rejects)
          | inr (op, known, valid, passes) ↦ elim (Starts-cases i j x op at known st) [
            | inl there ↦
                let same_inst : x ≡ inst = cc in
                subst (λ k. IsValidInst vm₀ insts k inst) there
                  (subst (λ y. IsValidInst vm₀ insts i y) same_inst
                    (SameView-IsValidInst insts vm₀ i x vm same valid))
            | inr st' ↦
                loop_sound xs (i + 1) (check_inst insts vm i x).0 (is_lddw op)
                  (IsRest-tail i x xs r) (SameView-trans same (check_inst-SameView insts vm i x))
                  (rw (check_from-passed vm i x xs passes) at ok) j inst st' got
          ]
        ]

    -- The loop accepts where every instruction that starts behind `i` is valid.
    loop_complete :
        (rest : List Inst) (i : ℕ) (vm : Vm) (skips : Bool)
        → IsRest i rest
        → SameView vm₀ vm
        → ((j : ℕ) (inst : Inst)
            → Starts insts (resume skips i) j
            → get_elem? insts j ≡ some inst
            → IsValidInst vm₀ insts j inst)
        → (check_from insts vm i rest skips).1 ≡ none
    unfolding check_from
    loop_complete [] i vm skips r same all = refl
    loop_complete (x ∷ xs) i vm true r same all =
        loop_complete xs (i + 1) vm false (IsRest-tail i x xs r) same all
    loop_complete (x ∷ xs) i vm false r same all =
        let at = IsRest-head i (x ∷ xs) r in
        elim (round-cases vm i x (fit i x at)) [
          | inl (bad, e, rejects) ↦
              absurd
                (bad (SameView-IsValidInst insts vm i x vm₀ (SameView-sym same) (all i x here at)))
          | inr (op, known, valid, passes) ↦ rw (check_from-passed vm i x xs passes) (
              loop_complete xs (i + 1) (check_inst insts vm i x).0 (is_lddw op)
                (IsRest-tail i x xs r) (SameView-trans same (check_inst-SameView insts vm i x))
                (λ j inst st got. all j inst (Starts-back i j x op at known st) got))
        ]

whole_IsRest : (insts : List Inst) (n : ℕ) → get_elem? insts (0 + n) ≡ get_elem? insts n
whole_IsRest insts n = let e : 0 + n ≡ n = omega arith in ap (get_elem? insts) e

-- `validate` accepts a program, given as decoded eight-byte instructions, exactly if it has fewer
-- than 65,536 instructions, the calculator gives its entry point an aligned stack usage, and every
-- instruction that starts in it, LDDW taking two places, has a known opcode, operands that its
-- operation allows, a jump or call target inside the program, a callable external function, and
-- registers that exist. The stack usages that the loop asks for on its way do not change the
-- verdict.
pub validate_iff :
    (vm : Vm) (insts : List Inst)
    → IsFit insts
    → ((validate vm insts).1 ≡ none) ↔ IsValidProgram vm insts
unfolding validate
validate_iff vm insts fit = elim (Bool-cases (leb 65536 (length insts))) [
  | inl long ↦ rw (long, validate) ((λ e. cc), (λ v. absurd (ground (arith, v.fits))))
  | inr short ↦ elim (Bool-cases (is_aligned_usage vm 0)) [
    | inl aligned ↦
        let small : length insts < 65536 = ground arith in
        let vm₁ = (calculate_stack_usage_for_local_func vm 0).0 in
        let whole : IsRest insts fit small 0 insts = whole_IsRest insts in
        let same = asked-SameView vm 0 in
        rw (short, validate, asked_aligned vm 0, aligned)
          (
            λ ok. record {
              fits = small;
              main_usage = aligned;
              each = loop_sound insts fit small vm insts 0 vm₁ false whole same ok;
            },
            λ v. loop_complete insts fit small vm insts 0 vm₁ false whole same v.each,
          )
    | inr odd ↦ rw (short, validate, asked_aligned vm 0, odd) ((λ e. cc), (λ v. cc v.main_usage))
  ]
]
