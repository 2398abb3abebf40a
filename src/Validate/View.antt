-- ===== src/Validate/View.antt =====
-- The parts of a machine that `validate` reads stay as they are while it runs: it only fills in
-- stack usages.
use appclick_ubpf.Prelude.{Option, ℕ, ◌+◌, ◌%◌, ◌≡◌, refl, ◌⊎◌, inl, inr, ◌∙◌, sym}
use appclick_ubpf.Prelude.{Bool, true, false, List, [], ◌∷◌, ap}
use appclick_ubpf.Prelude.{◌==◌, leb, Bool-cases, Option-cases, length}
use appclick_ubpf.Prelude.{==_refl, ==_iff}
use mathlib.Core.Path.{subst}
use appclick_ubpf.Words.{ℤ, pos, negsuc, u32, signed32}
use appclick_ubpf.Isa.{Inst, Op, alu, le, call, decode}
use appclick_ubpf.Isa.{w64, add, mov}
use appclick_ubpf.Vm.{Vm, Dispatcher, ExternalFunction}
use appclick_ubpf.StackUsage.{calculated, calculate_stack_usage_for_local_func}
use appclick_ubpf.Validate.{check_local_target, check_call, check_op, check_inst}
use appclick_ubpf.Validate.{ValidateError, Verdict, passed, rejected, check_from, validate}
use appclick_ubpf.Validate.Spec.{is_callable, is_aligned_usage, IsValidOp, IsValidInst}

-- The options that a run reads and that neither validation nor loading changes.
pub record Options : Type 0 where
  pub checks_bounds : Bool
  pub checks_undefined : Bool
  pub accepts : Option (ℕ → ℕ → ℕ → Bool)
  pub accepts_data : ℕ
  pub dispatches : Option Dispatcher
  pub table : ℕ → Option ExternalFunction
  pub limit : ℕ

abbrev pub options : Vm → Options
options vm = record {
  checks_bounds = vm.bounds_check_enabled;
  checks_undefined = vm.undefined_behavior_check_enabled;
  accepts = vm.bounds_check_function;
  accepts_data = vm.bounds_check_user_data;
  dispatches = vm.dispatcher;
  table = vm.ext_funcs;
  limit = vm.instruction_limit;
}

pub record SameView (vm vm' : Vm) : Type 0 where
  pub callable : (n : ℕ) → is_callable vm' n ≡ is_callable vm n
  pub aligned : (t : ℕ) → is_aligned_usage vm' t ≡ is_aligned_usage vm t
  pub secret : vm'.pointer_secret ≡ vm.pointer_secret
  pub same_options : options vm' ≡ options vm

pub SameView-refl : (vm : Vm) → SameView vm vm
SameView-refl vm = record {
  callable = λ n. refl;
  aligned = λ t. refl;
  secret = refl;
  same_options = refl;
}

pub SameView-trans : {vm vm' vm'' : Vm} → SameView vm vm' → SameView vm' vm'' → SameView vm vm''
SameView-trans a b = record {
  callable = λ n. b.callable n ∙ a.callable n;
  aligned = λ t. b.aligned t ∙ a.aligned t;
  secret = b.secret ∙ a.secret;
  same_options = b.same_options ∙ a.same_options;
}

pub SameView-sym : {vm vm' : Vm} → SameView vm vm' → SameView vm' vm
SameView-sym a = record {
  callable = λ n. sym (a.callable n);
  aligned = λ t. sym (a.aligned t);
  secret = sym a.secret;
  same_options = sym a.same_options;
}

Verdict-cases :
    (v : Verdict)
    → ((e : ValidateError) × (v ≡ rejected e))
      ⊎ ((store : Bool) × (skips : Bool) × (v ≡ passed store skips))
Verdict-cases (rejected e) = inl (e, refl)
Verdict-cases (passed store skips) = inr (store, skips, refl)

-- Asking the calculator again does not change an answer.
calculated_self :
    (vm : Vm) (t : ℕ)
    → (calculated (calculate_stack_usage_for_local_func vm t).0 t).stack_usage
      ≡ (calculated vm t).stack_usage
unfolding calculate_stack_usage_for_local_func
calculated_self vm t = elim (Option-cases vm.stack_usage_calculator) [
  | inl no_calculator ↦ simp (no_calculator, calculated, ==_refl)
  | inr (c, calculator) ↦ elim (Bool-cases (vm.local_func_stack_usage t).stack_usage_calculated) [
    | inl known ↦ simp (calculator, calculated, ==_refl, known)
    | inr unknown ↦ simp (calculator, calculated, ==_refl, unknown)
  ]
]

calculated_other :
    (vm : Vm) (t q : ℕ)
    → (t == q) ≡ false
    → (calculated (calculate_stack_usage_for_local_func vm t).0 q).stack_usage
      ≡ (calculated vm q).stack_usage
unfolding calculate_stack_usage_for_local_func
calculated_other vm t q other = elim (Option-cases vm.stack_usage_calculator) [
  | inl no_calculator ↦ rw (no_calculator, calculated, other) refl
  | inr (c, calculator) ↦ rw (calculator, calculated, other) refl
]

calculated_again :
    (vm : Vm) (t q : ℕ)
    → (calculated (calculate_stack_usage_for_local_func vm t).0 q).stack_usage
      ≡ (calculated vm q).stack_usage
calculated_again vm t q = elim (Bool-cases (t == q)) [
  | inl same ↦
      subst
        (λ r.
          (calculated (calculate_stack_usage_for_local_func vm t).0 r).stack_usage
          ≡ (calculated vm r).stack_usage)
        ((==_iff t q).0 same) (calculated_self vm t)
  | inr other ↦ calculated_other vm t q other
]

pub asked-SameView : (vm : Vm) (t : ℕ) → SameView vm (calculate_stack_usage_for_local_func vm t).0
unfolding calculate_stack_usage_for_local_func calculated
asked-SameView vm t = record {
  callable = λ n. refl;
  aligned = λ q. ap (λ u. u % 16 == 0) (calculated_again vm t q);
  secret = refl;
  same_options = refl;
}

module _ (insts : List Inst) (vm : Vm) (i : ℕ) (inst : Inst) where
  local-SameView : (z : ℤ) → SameView vm (check_local_target insts vm i z).0
  unfolding check_local_target
  local-SameView (negsuc n) = SameView-refl vm
  local-SameView (pos n) = elim (Bool-cases (leb (length insts) n)) [
    | inl outside ↦ rw (outside, check_local_target) (SameView-refl vm)
    | inr inside ↦ rw (inside, check_local_target) (asked-SameView vm n)
  ]

  call-SameView : SameView vm (check_call insts vm i inst).0
  unfolding check_call
  call-SameView = elim (Bool-cases (inst.src == 0)) [
    | inl external ↦ rw external (SameView-refl vm)
    | inr not_external ↦ elim (Bool-cases (inst.src == 1)) [
      | inl local ↦ rw (not_external, local) (local-SameView (signed32 (u32 (i + (inst.imm + 1)))))
      | inr neither ↦ elim (Bool-cases (inst.src == 2)) [
        | inl btf ↦ rw (not_external, neither, btf) (SameView-refl vm)
        | inr other ↦ rw (not_external, neither, other) (SameView-refl vm)
      ]
    ]
  ]

  op-SameView : (op : Op) → SameView vm (check_op insts vm i inst op).0
  unfolding check_op
  op-SameView call = call-SameView
  op-SameView (alu w64 mov s) = SameView-refl vm
  op-SameView (alu w64 add s) = SameView-refl vm
  op-SameView _ = SameView-refl vm

  pub check_inst-SameView : SameView vm (check_inst insts vm i inst).0
  unfolding check_inst
  check_inst-SameView = elim (Option-cases (decode inst.opcode)) [
    | inl unknown ↦ rw (unknown, check_inst) (SameView-refl vm)
    | inr (op, known) ↦ rw (known, check_inst) (op-SameView op)
  ]

  module _ (vm' : Vm) (same : SameView vm vm') where
    op-Valid : (op : Op) → IsValidOp vm' insts i inst op → IsValidOp vm insts i inst op
    op-Valid call (inl v) = inl (v.0, v.1, sym (same.callable inst.imm) ∙ v.2)
    op-Valid call (inr v) = inr (v.0, v.1, sym (same.aligned _) ∙ v.2)
    op-Valid le v = v
    op-Valid _ v = v

    -- Validity reads only what stays.
    pub SameView-IsValidInst : IsValidInst vm' insts i inst → IsValidInst vm insts i inst
    SameView-IsValidInst v = (v.0, v.1, op-Valid v.0 v.2, v.3)

check_from-SameView :
    (insts rest : List Inst) (vm : Vm) (i : ℕ) (skips : Bool)
    → SameView vm (check_from insts vm i rest skips).0
unfolding check_from
check_from-SameView insts [] vm i skips = SameView-refl vm
check_from-SameView insts (x ∷ xs) vm i true = check_from-SameView insts xs vm (i + 1) false
check_from-SameView insts (x ∷ xs) vm i false = elim (Verdict-cases (check_inst insts vm i x).1) [
  | inl (e, rejects) ↦ rw (rejects, check_from) (check_inst-SameView insts vm i x)
  | inr (store, skips, passes) ↦
      rw (passes, check_from)
        (SameView-trans (check_inst-SameView insts vm i x)
          (check_from-SameView insts xs (check_inst insts vm i x).0 (i + 1) skips))
]

pub validate-SameView : (vm : Vm) (insts : List Inst) → SameView vm (validate vm insts).0
unfolding validate
validate-SameView vm insts = elim (Bool-cases (leb 65536 (length insts))) [
  | inl long ↦ rw (long, validate) (SameView-refl vm)
  | inr short ↦ elim (Bool-cases (calculate_stack_usage_for_local_func vm 0).1) [
    | inl aligned ↦
        rw (short, validate, aligned)
          (SameView-trans (asked-SameView vm 0) (check_from-SameView insts insts _ 0 false))
    | inr odd ↦ rw (short, validate, odd) (asked-SameView vm 0)
  ]
]
