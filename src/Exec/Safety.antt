-- ===== src/Exec/Safety.antt =====
-- The interpreter of libs/ubpf/vm/ubpf_vm.c does not crash on a program that was validated.
use appclick_ubpf.Prelude.{ℕ, zero, suc, ◌+◌, ◌<◌, ◌≡◌, ◌≢◌, inl, inr, refl, ◌∙◌, sym, ap}
use mathlib.Core.Path.{subst}
use appclick_ubpf.Prelude.{none, some, List, get_elem?, get_elem?-some}
use appclick_ubpf.Prelude.{arith, Option-cases}
use appclick_ubpf.Isa.{Inst, decode, find_case, cases, opcode_of}
use appclick_ubpf.Memory.{Memory}
use appclick_ubpf.Validate.Spec.{IsValidOp}
use appclick_ubpf.Validate.Cover.{valid_or_half}
use appclick_ubpf.Machine.{Run, State, Outcome, fault, start, Leads}
use appclick_ubpf.Exec.{step, loop, entered, enter, leave, exec_ex}
use appclick_ubpf.Exec.Fuel.{Next-cases, exec_ex_ends}
use appclick_ubpf.Exec.Rules.{Leads-step, Leads-run_inst, Leads-execute}
use appclick_ubpf.Exec.Faultless.{IsSafeRun, Covers, Kept, IsNoFault, perform_safe}

module _ (run : Run) (insts : List Inst) (initial : Memory)
    (safe : IsSafeRun run insts initial) where
  -- The second half of an LDDW is no instruction.
  decode-zero : decode 0 ≡ none
  unfolding decode find_case cases opcode_of
  decode-zero = refl

  step_safe :
      (s : State)
      → Covers initial s.memory
      → Leads (Kept run insts initial safe) IsNoFault (step run s)
  unfolding Kept enter leave
  step_safe s covers =
      Leads-step _ _ run s (λ e. cc)
        (λ inside _.
          let (inst, at) = get_elem?-some insts s.pc (omega (arith, safe.holds.0)) in
          Leads-run_inst _ _ run s (λ e. cc) (λ e. absurd (cc (safe.holds.1 s.pc)))
            (λ i shadow fetched _.
              let there : get_elem? insts s.pc ≡ some i = sym (safe.holds.1 s.pc) ∙ fetched in
              Leads-execute (Kept run insts initial safe) _ _ run (entered run s shadow) i (λ e. cc)
                (λ op known. elim (valid_or_half run.vm insts s.pc i safe.valid there) [
                  | inl (op', known', ok, _) ↦
                      let same : op' ≡ op = cc in
                      perform_safe run insts initial safe s.pc (entered run s shadow) i op
                        (subst (IsValidOp run.vm insts s.pc i) same ok) refl covers
                  | inr no_opcode ↦ absurd (cc (decode-zero, ap decode no_opcode))
                ])
                (λ s' kept. kept)))

  loop_safe :
      (n : ℕ) (s : State) (o : Outcome)
      → Covers initial s.memory
      → loop run n s ≡ some o
      → o ≢ fault
  unfolding loop Kept
  loop_safe zero s o covers e = absurd (cc)
  loop_safe (suc n) s o covers e = elim (Next-cases (step run s)) [
    | inl (o', h) ↦
        let fine = rw h at (step_safe s covers) in
        let same : o' ≡ o = cc (rw (h, loop) at e) in λ bad. fine (same ∙ bad)
    | inr (s', h) ↦ loop_safe n s' o (rw h at (step_safe s covers)) (rw (h, loop) at e)
  ]

-- Without a limit the run may go on for ever, but no number of rounds brings a crash.
never_fault :
    (run : Run) (insts : List Inst) (garbage : ℕ → ℕ) (memory : Memory)
    → IsSafeRun run insts memory
    → (fuel : ℕ) (o : Outcome) → exec_ex run garbage memory fuel ≡ some o
    → o ≢ fault
unfolding exec_ex start
never_fault run insts garbage memory safe fuel o e = elim (Option-cases run.vm.insts) [
  | inl h ↦ λ bad. cc (rw (h, exec_ex) at e)
  | inr (code, h) ↦
      loop_safe run insts memory safe fuel (start run garbage memory) o (λ x v at. (v, at))
        (rw (h, exec_ex) at e)
]

pub exec_ex_safe :
    (run : Run) (insts : List Inst) (garbage : ℕ → ℕ) (memory : Memory)
    → IsSafeRun run insts memory
    → run.vm.instruction_limit ≢ 0
    → (o : Outcome) × (o ≢ fault)
      × ((fuel : ℕ) → run.vm.instruction_limit < fuel → exec_ex run garbage memory fuel ≡ some o)
exec_ex_safe run insts garbage memory safe limited =
    let (o, ends) = exec_ex_ends run garbage memory limited in
    let last = ends (run.vm.instruction_limit + 1) (omega arith) in
    (o, never_fault run insts garbage memory safe _ o last, ends)
