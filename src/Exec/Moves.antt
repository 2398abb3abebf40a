-- ===== src/Exec/Moves.antt =====
-- How a round of `ubpf_exec_ex` (libs/ubpf/vm/ubpf_vm.c) moves between the stack frames.
use appclick_ubpf.Prelude.{ℕ, ◌+◌, ◌-◌, ◌^◌, ◌<◌, ◌≡◌, ◌≢◌, ◌⊎◌, inl, inr, refl, ◌∙◌, sym, ap}
use appclick_ubpf.Prelude.{arith, ℕ-cases, Bool-cases}
use appclick_ubpf.Prelude.{leb}
use mathlib.Core.Path.{subst}
use appclick_ubpf.Words.{u16, u64}
use appclick_ubpf.Isa.{
  Inst, Op, alu, neg, le, be, ldx, st, stx, lddw, ja, jump, call, exit, opcode_of,
}
use appclick_ubpf.Isa.Decode.{decode_iff}
use appclick_ubpf.Machine.{Run, State, StackFrame, Next, Leads}
use appclick_ubpf.Perform.{
  perform, perform_load, perform_store, perform_call, perform_exit, perform_lddw,
}
use appclick_ubpf.Perform.{call_external, call_local}
use appclick_ubpf.Exec.{step, entered, enter, leave}
use appclick_ubpf.Exec.Rules.{Leads-step, Leads-run_inst, Leads-execute}

-- The frame holds what a caller saves.
abbrev pub IsSaved : State → StackFrame → Type 0
IsSaved s frame =
    (frame.return_address ≡ s.pc)
    × (frame.saved_registers 0 ≡ s.reg 6)
    × (frame.saved_registers 1 ≡ s.reg 7)
    × (frame.saved_registers 2 ≡ s.reg 8)
    × (frame.saved_registers 3 ≡ s.reg 9)

-- How an instruction moves between the frames: it stays in its frame and leaves the frames below
-- alone, or goes one deeper and saves, or goes back and restores. The last two are a CALL and an
-- EXIT.
abbrev Moves : State → Inst → State → Type 0
Moves s i s' =
    ((s'.stack_frame_index ≡ s.stack_frame_index)
      × ((k : ℕ) → s'.stack_frames k ≡ s.stack_frames k))
    ⊎ (((s'.stack_frame_index ≡ s.stack_frame_index + 1)
          × ((k : ℕ) → k ≢ s.stack_frame_index → s'.stack_frames k ≡ s.stack_frames k)
          × (i.opcode ≡ opcode_of call)
          × IsSaved s (s'.stack_frames s.stack_frame_index)
          × (s'.reg 10
              ≡ u64 (s.reg 10 + 2 ^ 64 - (s'.stack_frames s.stack_frame_index).stack_usage)))
        ⊎ ((s.stack_frame_index ≡ s'.stack_frame_index + 1)
            × ((k : ℕ) → s'.stack_frames k ≡ s.stack_frames k)
            × (i.opcode ≡ opcode_of exit)
            × IsSaved s' (s.stack_frames s'.stack_frame_index)
            × (s'.reg 10 ≡ u64 (s.reg 10 + (s.stack_frames s'.stack_frame_index).stack_usage))))

abbrev Moved : State → Inst → Next → Type 0
Moved s i = Leads (Moves s i) (λ _. Unit)

perform_load_moves : (run : Run) (s : State) (i : Inst) (z : ℕ) → Moved s i (perform_load run s i z)
unfolding perform_load
perform_load_moves run s i z = ground arith

perform_store_moves :
    (run : Run) (s : State) (i : Inst) (v z : ℕ) → Moved s i (perform_store run s i v z)
unfolding perform_store
perform_store_moves run s i v z = ground arith

perform_lddw_moves : (run : Run) (s : State) (i : Inst) → Moved s i (perform_lddw run s i)
unfolding perform_lddw
perform_lddw_moves run s i = ground arith

call_external_moves : (run : Run) (s : State) (i : Inst) → Moved s i (call_external run s i)
unfolding call_external
call_external_moves run s i = ground arith

call_local_moves : (s : State) (i : Inst) → i.opcode ≡ opcode_of call → Moved s i (call_local s i)
unfolding call_local
call_local_moves s i known = elim (Bool-cases (leb 10 s.stack_frame_index)) [
  | inl e ↦ rw (e, call_local) tt
  | inr e ↦
      rw (e, call_local)
        (inr (inl (refl, (λ k other. ground arith), known, (ground arith), ground arith)))
]

perform_exit_moves : (s : State) (i : Inst) → i.opcode ≡ opcode_of exit → Moved s i (perform_exit s)
unfolding perform_exit
perform_exit_moves s i known = elim (ℕ-cases s.stack_frame_index) [
  | inl e ↦ rw (e, perform_exit) tt
  | inr (n, e) ↦
      rw (e, perform_exit)
        (inr (inr ((omega arith), (λ k. refl), known, (refl, refl, refl, refl, refl), refl)))
]

perform_moves :
    (run : Run) (s : State) (i : Inst) (op : Op)
    → i.opcode ≡ opcode_of op
    → Moved s i (perform run s i op)
unfolding perform perform_call
perform_moves run s i (ldx z) known = perform_load_moves run s i _
perform_moves run s i (st z) known = perform_store_moves run s i _ _
perform_moves run s i (stx z) known = perform_store_moves run s i _ _
perform_moves run s i lddw known = perform_lddw_moves run s i
perform_moves run s i call known = ground (arith, call_external_moves run s i, call_local_moves s i)
perform_moves run s i exit known = perform_exit_moves s i known
perform_moves run s i (jump w c src) known = ground arith
perform_moves run s i (alu w o src) known = inl (refl, λ k. refl)
perform_moves run s i (neg w) known = inl (refl, λ k. refl)
perform_moves run s i le known = inl (refl, λ k. refl)
perform_moves run s i be known = inl (refl, λ k. refl)
perform_moves run s i ja known = inl (refl, λ k. refl)

-- The same for a round, which first sets the stack usage of the current frame.
abbrev pub Travels : State → State → Type 0
Travels s s' =
    ((s'.stack_frame_index ≡ s.stack_frame_index)
      × ((k : ℕ) → k < s.stack_frame_index → s'.stack_frames k ≡ s.stack_frames k))
    ⊎ (((s'.stack_frame_index ≡ s.stack_frame_index + 1)
          × ((k : ℕ) → k < s.stack_frame_index → s'.stack_frames k ≡ s.stack_frames k)
          × IsSaved (record s { pc = u16 (s.pc + 1) }) (s'.stack_frames s.stack_frame_index)
          × (s'.reg 10
              ≡ u64 (s.reg 10 + 2 ^ 64 - (s'.stack_frames s.stack_frame_index).stack_usage)))
        ⊎ ((s.stack_frame_index ≡ s'.stack_frame_index + 1)
            × ((k : ℕ) → k < s.stack_frame_index → s'.stack_frames k ≡ s.stack_frames k)
            × IsSaved s' (s.stack_frames s'.stack_frame_index)
            × (s'.reg 10 ≡ u64 (s.reg 10 + (s.stack_frames s'.stack_frame_index).stack_usage))))

-- The frames below the current one are as they were when the instruction is entered.
enter_below :
    (run : Run) (s : State) (shadow k : ℕ)
    → k < s.stack_frame_index
    → (entered run s shadow).stack_frames k ≡ s.stack_frames k
unfolding enter
enter_below run s shadow k h = ground arith

-- After a CALL or an EXIT nothing is masked.
leave_reg :
    (i : Inst) (s : State)
    → (i.opcode ≡ opcode_of call) ⊎ (i.opcode ≡ opcode_of exit)
    → (r : ℕ) → (leave i s).reg r ≡ s.reg r
unfolding leave opcode_of
leave_reg i s (inl e) r = rw (e, leave) refl
leave_reg i s (inr e) r = rw (e, leave) refl

travels :
    (run : Run) (s : State) (shadow : ℕ) (i : Inst) (s' : State)
    → Moves (entered run s shadow) i s'
    → Travels s (leave i s')
unfolding leave enter
travels run s shadow i s' (inl (e, f)) = inl (e, λ k h. f k ∙ enter_below run s shadow k h)
travels run s shadow i s' (inr (inl (e, f, known, saved, r10))) = inr (
    inl (
      e,
      (λ k h.
          f k (λ (same : k ≡ s.stack_frame_index). absurd (omega arith))
          ∙ enter_below run s shadow k h),
      saved,
      leave_reg i s' (inl known) 10 ∙ r10,
    ))
travels run s shadow i s' (inr (inr (e, f, known, saved, r10))) =
    let below = enter_below run s shadow s'.stack_frame_index (omega arith) in
    let (pc, r6, r7, r8, r9) = subst (IsSaved s') below saved in
    let kept = leave_reg i s' (inr known) in
    inr (
      inr (
        e,
        (λ k h. f k ∙ enter_below run s shadow k h),
        (pc, r6 ∙ sym (kept 6), r7 ∙ sym (kept 7), r8 ∙ sym (kept 8), r9 ∙ sym (kept 9)),
        kept 10 ∙ r10 ∙ ap (λ (frame : StackFrame). u64 (s.reg 10 + frame.stack_usage)) below,
      ))

pub step-Travels : (run : Run) (s : State) → Leads (Travels s) (λ _. Unit) (step run s)
unfolding enter
step-Travels run s = Leads-step _ _ run s tt (λ _ _.
    Leads-run_inst _ _ run s tt (λ _. tt)
      (λ i shadow _ _.
        Leads-execute (Moves (entered run s shadow) i) _ _ run (entered run s shadow) i tt
          (λ op known.
            perform_moves run (entered run s shadow) i op (sym ((decode_iff i.opcode op).0 known)))
          (travels run s shadow i)))
