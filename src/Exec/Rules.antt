-- ===== src/Exec/Rules.antt =====
-- Rules for the rounds of the interpreter of libs/ubpf/vm/ubpf_vm.c: what is to be shown of an
-- instruction, so that it holds of a round.
use appclick_ubpf.Prelude.{
  ℕ, ◌<◌, ◌≡◌, refl, inl, inr, Bool, true, false, not, ◌&&◌, Option, none, some,
}
use appclick_ubpf.Prelude.{arith, Bool-cases, Option-cases, leb, if◌then◌else◌}
use appclick_ubpf.Isa.{Inst, Op, decode}
use appclick_ubpf.Code.{fetch_instruction}
use appclick_ubpf.Shadow.{validate_shadow_register}
use appclick_ubpf.Machine.{Run, State, Next, next, halt, Outcome, failed, fault, Leads}
use appclick_ubpf.Perform.{perform}
use appclick_ubpf.Exec.{
  step, execute, run_inst, entered, is_exhausted, is_entry, is_called, finish, leave,
}

module _ (P R : State → Type 0) (Q : Outcome → Type 0) where
  pub Leads-finish :
      (i : Inst) (n : Next)
      → Leads P Q n
      → ((s : State) → P s → R (leave i s))
      → Leads R Q (finish i n)
  unfolding finish
  Leads-finish i (halt o) h f = h
  Leads-finish i (next s) h f = f s h

  pub Leads-execute :
      (run : Run) (s : State) (i : Inst)
      → Q (failed s.memory)
      → ((op : Op) → decode i.opcode ≡ some op → Leads P Q (perform run s i op))
      → ((s' : State) → P s' → R (leave i s'))
      → Leads R Q (execute run s i)
  unfolding execute
  Leads-execute run s i bad h f = elim (Option-cases (decode i.opcode)) [
    | inl e ↦ rw (e, execute) bad
    | inr (op, e) ↦ rw (e, execute) (Leads-finish i (perform run s i op) (h op e) f)
  ]

module _ (P : State → Type 0) (Q : Outcome → Type 0) where
  -- A check that ends the run where it fails.
  pub Leads-guard :
      (b : Bool) (o : Outcome) (n : Next)
      → Q o
      → (b ≡ true → Leads P Q n)
      → Leads P Q (if not b then halt o else n)
  Leads-guard true o n q h = h refl
  Leads-guard false o n q h = q

  -- A value that is found.
  pub Leads-found {ℓ} :
      {A : Type ℓ} (a : Option A) (f : A → Next)
      → (v : A) × (a ≡ some v)
      → ((v : A) → a ≡ some v → Leads P Q (f v))
      → Leads P Q (elim a [ none ↦ halt fault | some v ↦ f v ])
  Leads-found none f found h = absurd (cc found.1)
  Leads-found (some v) f found h = h v refl

  -- A value that may be missing.
  pub Leads-maybe {ℓ} :
      {A : Type ℓ} (a : Option A) (f : A → Next)
      → Q fault
      → ((v : A) → a ≡ some v → Leads P Q (f v))
      → Leads P Q (elim a [ none ↦ halt fault | some v ↦ f v ])
  Leads-maybe none f q h = q
  Leads-maybe (some v) f q h = h v refl

  pub Leads-run_inst :
      (run : Run) (s : State)
      → Q (failed s.memory)
      → (fetch_instruction run.vm s.pc ≡ none → Q fault)
      → ((i : Inst) (shadow : ℕ)
          → fetch_instruction run.vm s.pc ≡ some i
          → validate_shadow_register run.vm s.shadow_registers i ≡ some shadow
          → Leads P Q (execute run (entered run s shadow) i))
      → Leads P Q (run_inst run s)
  unfolding run_inst
  Leads-run_inst run s bad outside h = elim (Option-cases (fetch_instruction run.vm s.pc)) [
    | inl e ↦ rw (e, run_inst) (outside e)
    | inr (i, e) ↦ elim (Option-cases (validate_shadow_register run.vm s.shadow_registers i)) [
      | inl e' ↦ rw (e, run_inst, e') bad
      | inr (shadow, e') ↦ rw (e, run_inst, e') (h i shadow e e')
    ]
  ]

  -- A round fails, or runs an instruction of the program before the limit.
  pub Leads-step :
      (run : Run) (s : State)
      → Q (failed s.memory)
      → (s.pc < run.vm.num_insts → is_exhausted run.vm s ≡ false → Leads P Q (run_inst run s))
      → Leads P Q (step run s)
  unfolding step
  Leads-step run s bad h = elim (Bool-cases (leb run.vm.num_insts s.pc)) [
    | inl e ↦ rw (e, step) bad
    | inr e ↦ elim (Bool-cases (is_exhausted run.vm s)) [
      | inl e' ↦ rw (e, step, e') bad
      | inr e' ↦
          elim (Bool-cases
            (is_entry run.vm s && (not (is_called s) && run.vm.undefined_behavior_check_enabled))) [
              | inl e'' ↦ rw (e, step, e', e'') bad
              | inr e'' ↦ rw (e, step, e', e'') (h (ground arith) e')
            ]
    ]
  ]
