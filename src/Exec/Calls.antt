-- ===== src/Exec/Calls.antt =====
-- Calls of local functions in `ubpf_exec_ex` (libs/ubpf/vm/ubpf_vm.c): what a callee cannot change.
use appclick_ubpf.Prelude.{ℕ, ◌+◌, ◌-◌, ◌^◌, ◌≤◌, ◌<◌, ◌≡◌, inl, inr, refl, ◌∙◌, sym, ap}
use appclick_ubpf.Prelude.{arith}
use mathlib.Core.Path.{subst}
use appclick_ubpf.Words.{u16, u64}
use appclick_ubpf.Machine.{Run, State, StackFrame, next}
use appclick_ubpf.Exec.{step}
use appclick_ubpf.Exec.Moves.{IsSaved, Travels, step-Travels}

Travels-below :
    (s s' : State) (k : ℕ)
    → Travels s s'
    → k < s.stack_frame_index
    → s'.stack_frames k ≡ s.stack_frames k
Travels-below s s' k (inl (e, f)) h = f k h
Travels-below s s' k (inr (inl (e, f, _, _))) h = f k h
Travels-below s s' k (inr (inr (e, f, _, _))) h = f k h

Travels-deeper :
    (s s' : State)
    → Travels s s'
    → s'.stack_frame_index ≡ s.stack_frame_index + 1
    → IsSaved (record s { pc = u16 (s.pc + 1) }) (s'.stack_frames s.stack_frame_index)
      × (s'.reg 10 ≡ u64 (s.reg 10 + 2 ^ 64 - (s'.stack_frames s.stack_frame_index).stack_usage))
Travels-deeper s s' (inl (e, f)) h = absurd (omega arith)
Travels-deeper s s' (inr (inl (e, f, saved, r10))) h = (saved, r10)
Travels-deeper s s' (inr (inr (e, f, _, _))) h = absurd (omega arith)

Travels-back :
    (s s' : State)
    → Travels s s'
    → s'.stack_frame_index < s.stack_frame_index
    → IsSaved s' (s.stack_frames s'.stack_frame_index)
      × (s'.reg 10 ≡ u64 (s.reg 10 + (s.stack_frames s'.stack_frame_index).stack_usage))
Travels-back s s' (inl (e, f)) h = absurd (omega arith)
Travels-back s s' (inr (inl (e, f, _, _))) h = absurd (omega arith)
Travels-back s s' (inr (inr (e, f, saved, r10))) h = (saved, r10)

-- `Within run d s s'`: rounds lead from `s` to `s'`, and in every state on the way, `s` and `s'`
-- included, at least `d` calls are open.
pub data Within (run : Run) (d : ℕ) : State → State → Type 0 where
  still : {s : State} → d ≤ s.stack_frame_index → Within run d s s
  round :
      {s s' s'' : State}
      → d ≤ s.stack_frame_index
      → step run s ≡ next s'
      → Within run d s' s''
      → Within run d s s''

-- What was saved for the calls that stay open stays as it was saved.
pub open_frames_kept :
    (run : Run) (d : ℕ) {s s' : State}
    → Within run d s s'
    → (k : ℕ) → k < d
    → s'.stack_frames k ≡ s.stack_frames k
open_frames_kept run d (still deep) k h = refl
open_frames_kept run d (round {s = s} {s' = s'} deep e rest) k h =
    open_frames_kept run d rest k h
    ∙ Travels-below s s' k (rw e at (step-Travels run s)) (omega arith)

-- The last state on the way has the calls open too.
Within-deep : (run : Run) (d : ℕ) {s s' : State} → Within run d s s' → d ≤ s'.stack_frame_index
Within-deep run d (still deep) = deep
Within-deep run d (round deep e rest) = Within-deep run d rest

-- A call from `s` to `called`, the callee's rounds to `last`, and the return to `back`.
pub record CallOf (run : Run) (s called last back : State) : Type 0 where
  pub calls : step run s ≡ next called
  pub deeper : called.stack_frame_index ≡ s.stack_frame_index + 1
  pub body : Within run called.stack_frame_index called last
  pub returns : step run last ≡ next back
  pub same_depth : back.stack_frame_index ≡ s.stack_frame_index

-- What the callee finds in the caller's frame when it returns.
frame_kept :
    (run : Run) {s called last back : State}
    → CallOf run s called last back
    → last.stack_frames back.stack_frame_index ≡ called.stack_frames s.stack_frame_index
frame_kept run {s = s} {called = called} {last = last} c =
    ap last.stack_frames c.same_depth
    ∙ open_frames_kept run called.stack_frame_index c.body s.stack_frame_index
        (omega (arith, c.deeper))

-- Whatever a local function does, its own calls included: when it returns, the caller goes on
-- behind the CALL with r6 to r9 as they were before it.
pub call_return :
    (run : Run) {s called last back : State}
    → CallOf run s called last back
    → (back.pc ≡ u16 (s.pc + 1))
      × (back.reg 6 ≡ s.reg 6)
      × (back.reg 7 ≡ s.reg 7)
      × (back.reg 8 ≡ s.reg 8)
      × (back.reg 9 ≡ s.reg 9)
call_return run {s = s} {called = called} {last = last} {back = back} c =
    let saved = (Travels-deeper s called (rw c.calls at (step-Travels run s)) c.deeper).0 in
    let deep = Within-deep run _ c.body in
    let restored =
      (Travels-back last back (rw c.returns at (step-Travels run last))
        (omega (arith, c.deeper, c.same_depth))).0 in
    let (pc, r6, r7, r8, r9) = subst (IsSaved back) (frame_kept run c) restored in
    let (pc', r6', r7', r8', r9') = saved in
    (sym pc ∙ pc', sym r6 ∙ r6', sym r7 ∙ r7', sym r8 ∙ r8', sym r9 ∙ r9')

-- If the callee returns with the frame pointer as it got it, the caller's frame pointer, a 64-bit
-- value, is what it was before the call; the stack usage of the caller is a 16-bit number.
pub call_return_r10 :
    (run : Run) {s called last back : State}
    → CallOf run s called last back
    → s.reg 10 < 2 ^ 64
    → (called.stack_frames s.stack_frame_index).stack_usage < 2 ^ 16
    → last.reg 10 ≡ called.reg 10
    → back.reg 10 ≡ s.reg 10
call_return_r10 run {s = s} {called = called} {last = last} {back = back} c fits usage same =
    let down = (Travels-deeper s called (rw c.calls at (step-Travels run s)) c.deeper).1 in
    let deep = Within-deep run _ c.body in
    let up =
      (Travels-back last back (rw c.returns at (step-Travels run last))
        (omega (arith, c.deeper, c.same_depth))).1 in
    let kept = ap (λ (frame : StackFrame). frame.stack_usage) (frame_kept run c) in omega arith
