-- ===== src/Exec/Fuel.antt =====
-- When the interpreter of libs/ubpf/vm/ubpf_vm.c ends.
use appclick_ubpf.Prelude.{ℕ, zero, suc, ◌+◌, ◌-◌, ◌^◌, ◌<◌, ◌≡◌, ◌≢◌, ◌⊎◌, inl, inr, refl, ap, ◌∙◌}
use appclick_ubpf.Prelude.{some, arith, Option-cases}
use appclick_ubpf.Isa.{Inst, Op, alu, neg, le, be, ldx, st, stx, lddw, ja, jump, call, exit}
use appclick_ubpf.Memory.{Memory}
use appclick_ubpf.Machine.{Run, State, Next, next, halt, Outcome, failed, start, Leads}
use appclick_ubpf.Perform.{
  perform, perform_load, perform_store, perform_call, perform_exit, perform_lddw,
}
use appclick_ubpf.Exec.{step, loop, entered, enter, leave, is_exhausted, exec_ex}
use appclick_ubpf.Exec.Rules.{Leads-step, Leads-run_inst, Leads-execute}

-- The limit is what a round leaves of it.
abbrev Keeps : ℕ → Next → Type 0
Keeps n = Leads (λ s. s.instruction_limit ≡ n) (λ _. Unit)

perform_load-Keeps :
    (run : Run) (s : State) (i : Inst) (z : ℕ) → Keeps s.instruction_limit (perform_load run s i z)
unfolding perform_load
perform_load-Keeps run s i z = ground arith

perform_store-Keeps :
    (run : Run) (s : State) (i : Inst) (v z : ℕ)
    → Keeps s.instruction_limit (perform_store run s i v z)
unfolding perform_store
perform_store-Keeps run s i v z = ground arith

perform_call-Keeps :
    (run : Run) (s : State) (i : Inst) → Keeps s.instruction_limit (perform_call run s i)
unfolding perform_call
perform_call-Keeps run s i = ground arith

perform_exit-Keeps : (s : State) → Keeps s.instruction_limit (perform_exit s)
unfolding perform_exit
perform_exit-Keeps s = ground arith

perform_lddw-Keeps :
    (run : Run) (s : State) (i : Inst) → Keeps s.instruction_limit (perform_lddw run s i)
unfolding perform_lddw
perform_lddw-Keeps run s i = ground arith

perform-Keeps :
    (run : Run) (s : State) (i : Inst) (op : Op) → Keeps s.instruction_limit (perform run s i op)
unfolding perform
perform-Keeps run s i (ldx z) = perform_load-Keeps run s i _
perform-Keeps run s i (st z) = perform_store-Keeps run s i _ _
perform-Keeps run s i (stx z) = perform_store-Keeps run s i _ _
perform-Keeps run s i lddw = perform_lddw-Keeps run s i
perform-Keeps run s i call = perform_call-Keeps run s i
perform-Keeps run s i exit = perform_exit-Keeps s
perform-Keeps run s i (alu w o src) = refl
perform-Keeps run s i (neg w) = refl
perform-Keeps run s i le = refl
perform-Keeps run s i be = refl
perform-Keeps run s i ja = refl
perform-Keeps run s i (jump w c src) = ground arith

-- One round counts the limit down, if there is one.
step_limit :
    (run : Run) (s : State)
    → Leads
        (λ s'.
          (run.vm.instruction_limit ≢ 0)
          → (s'.instruction_limit + 1 ≡ s.instruction_limit) × (s.instruction_limit < 2 ^ 31))
        (λ _. Unit)
        (step run s)
unfolding is_exhausted enter leave
step_limit run s = Leads-step _ _ run s tt (λ inside left.
    Leads-run_inst _ _ run s tt (λ _. tt)
      (λ i shadow _ _.
        Leads-execute (λ s'. s'.instruction_limit ≡ (entered run s shadow).instruction_limit) _ _
          run (entered run s shadow) i tt (λ op _. perform-Keeps run (entered run s shadow) i op)
          (λ s' e limited. ground arith)))

pub Next-cases : (n : Next) → ((o : Outcome) × (n ≡ halt o)) ⊎ ((s : State) × (n ≡ next s))
Next-cases (halt o) = inl (o, refl)
Next-cases (next s) = inr (s, refl)

-- A run that has ended is not changed by more fuel.
pub more_fuel :
    (run : Run) (n k : ℕ) (s : State) (o : Outcome)
    → loop run n s ≡ some o
    → loop run (n + k) s ≡ some o
unfolding loop
more_fuel run zero k s o e = absurd (cc)
more_fuel run (suc n) k s o e =
    let shift : suc n + k ≡ suc (n + k) = omega arith in
    elim (Next-cases (step run s)) [
      | inl (o', h) ↦ rw (shift, h, loop) (rw (h, loop) at e)
      | inr (s', h) ↦ rw (shift, h, loop) (more_fuel run n k s' o (rw (h, loop) at e))
    ]

-- With a limit, fuel above it lets the loop end.
pub loop_ends :
    (run : Run) (n : ℕ) (s : State)
    → run.vm.instruction_limit ≢ 0
    → s.instruction_limit < n
    → (o : Outcome) × (loop run n s ≡ some o)
unfolding loop
loop_ends run zero s limited h = absurd (omega arith)
loop_ends run (suc n) s limited h = elim (Next-cases (step run s)) [
  | inl (o, e) ↦ (o, rw (e, loop) refl)
  | inr (s', e) ↦
      let counted = (rw e at (step_limit run s)) limited in
      let (o, rest) = loop_ends run n s' limited (omega arith) in (o, rw (e, loop) rest)
]

-- With an instruction limit set, every run ends, whatever the program is and whether or not it
-- was validated: there is one outcome, and any fuel above the limit reaches it.
pub exec_ex_ends :
    (run : Run) (garbage : ℕ → ℕ) (memory : Memory)
    → run.vm.instruction_limit ≢ 0
    → (o : Outcome) × ((fuel : ℕ)
        → run.vm.instruction_limit < fuel
        → exec_ex run garbage memory fuel ≡ some o)
unfolding exec_ex start
exec_ex_ends run garbage memory limited = elim (Option-cases run.vm.insts) [
  | inl e ↦ (failed memory, λ fuel h. simp (e, exec_ex))
  | inr (code, e) ↦
      let (o, ends) =
        loop_ends run (run.vm.instruction_limit + 1) (start run garbage memory) limited
          (omega arith) in
      (
        o,
        λ fuel h.
            let shift : fuel
                ≡ run.vm.instruction_limit + 1 + (fuel - run.vm.instruction_limit - 1) =
              omega arith in
            let enough =
              more_fuel run (run.vm.instruction_limit + 1) (fuel - run.vm.instruction_limit - 1)
                (start run garbage memory) o ends in
            let reached : loop run fuel (start run garbage memory) ≡ some o =
              ap (λ t. loop run t (start run garbage memory)) shift ∙ enough in
            simp (e, exec_ex, reached),
      )
]
