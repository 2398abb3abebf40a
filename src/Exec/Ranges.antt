-- ===== src/Exec/Ranges.antt =====
-- The ranges of the variables of `ubpf_exec_ex` (libs/ubpf/vm/ubpf_vm.c).
use appclick_ubpf.Prelude.{ℕ, ◌^◌, ◌≤◌, ◌<◌, ◌≡◌, inl, inr}
use appclick_ubpf.Prelude.{some, arith, Bool-cases}
use appclick_ubpf.Prelude.{◌==◌, update}
use appclick_ubpf.Words.{u16, i64-lt}
use appclick_ubpf.Isa.{Inst, IsInst, Source, imm, reg, Width, w32, w64, AluOp}
use appclick_ubpf.Memory.{Memory}
use appclick_ubpf.Memory.Laws.{IsBytes, IsSize, one, two, four, eight}
use appclick_ubpf.Alu.{alu_by}
use appclick_ubpf.Alu.Fits.{alu32-lt, alu64-lt}
use appclick_ubpf.Exec.Masks.{AreBytes}
use appclick_ubpf.Machine.{Run, State, StackFrame, Next, Outcome, returned, failed, fault, Leads}
use appclick_ubpf.Perform.{operand}
use appclick_ubpf.Perform.{external_function}

pub record IsFrame (f : StackFrame) : Type 0 where
  pub usage_fits : f.stack_usage < 2 ^ 16
  pub return_fits : f.return_address < 2 ^ 16
  pub saved_fit : (k : ℕ) → f.saved_registers k < 2 ^ 64

-- The ranges: 64-bit registers, a 16-bit program counter, at most ten open calls, a 16-bit mask of
-- the written registers, bytes in the shadow stack and in memory, an instruction, and an `int`.
pub record IsState (s : State) : Type 0 where
  pub pc_fits : s.pc < 2 ^ 16
  pub regs_fit : (r : ℕ) → s.reg r < 2 ^ 64
  pub depth : s.stack_frame_index ≤ 10
  pub frames_fit : (k : ℕ) → IsFrame (s.stack_frames k)
  pub mask_fits : s.shadow_registers < 2 ^ 16
  pub shadow_fits : AreBytes s.shadow_stack
  pub previous_fits : IsInst s.previous_inst
  pub limit_fits : s.instruction_limit < 2 ^ 32
  pub bytes : IsBytes s.memory

unfoldable pub IsFitOutcome : Outcome → Type 0
IsFitOutcome (returned value m) = (value < 2 ^ 64) × IsBytes m
IsFitOutcome (failed m) = IsBytes m
IsFitOutcome fault = Unit

-- What the surroundings must keep to: external functions answer a 64-bit number and write bytes,
-- and the stack usages are 16-bit numbers.
pub record IsFitRun (run : Run) : Type 0 where
  pub usages_fit : (pc : ℕ) → (run.vm.local_func_stack_usage pc).stack_usage < 2 ^ 16
  pub answers_fit :
      (index : ℕ) (f : ℕ → ℕ → ℕ → ℕ → ℕ → Memory → ℕ × Memory)
      → external_function run index ≡ some f
      → (a b c d e : ℕ) (m : Memory) → IsBytes m
      → ((f a b c d e m).0 < 2 ^ 64) × IsBytes (f a b c d e m).1

pub write-lt :
    (f : ℕ → ℕ) (r v : ℕ)
    → ((k : ℕ) → f k < 2 ^ 64)
    → v < 2 ^ 64
    → (k : ℕ) → update f r v k < 2 ^ 64
write-lt f r v h hv k = ground (arith, h k)

pub update-IsFrame :
    (f : ℕ → StackFrame) (j : ℕ) (x : StackFrame)
    → ((k : ℕ) → IsFrame (f k))
    → IsFrame x
    → (k : ℕ) → IsFrame (update f j x k)
update-IsFrame f j x h hx k = elim (Bool-cases (j == k)) [ inl e ↦ rw e hx | inr e ↦ rw e (h k) ]

pub write-IsState :
    (s : State) (r v : ℕ) → IsState s → v < 2 ^ 64 → IsState (record s { reg = update s.reg r v })
write-IsState s r v h hv = record {
  pc_fits = h.pc_fits;
  regs_fit = write-lt s.reg r v h.regs_fit hv;
  depth = h.depth;
  frames_fit = h.frames_fit;
  mask_fits = h.mask_fits;
  shadow_fits = h.shadow_fits;
  previous_fits = h.previous_fits;
  limit_fits = h.limit_fits;
  bytes = h.bytes;
}

pub go-IsState : (s : State) (p : ℕ) → IsState s → IsState (record s { pc = u16 p })
go-IsState s p h = record {
  pc_fits = omega arith;
  regs_fit = h.regs_fit;
  depth = h.depth;
  frames_fit = h.frames_fit;
  mask_fits = h.mask_fits;
  shadow_fits = h.shadow_fits;
  previous_fits = h.previous_fits;
  limit_fits = h.limit_fits;
  bytes = h.bytes;
}

pub small_value : {z : ℕ} (v : ℕ) → IsSize z → v < 256 ^ z → v < 2 ^ 64
small_value v one h = omega arith
small_value v two h = omega arith
small_value v four h = omega arith
small_value v eight h = omega arith

pub alu_by-lt :
    (w : Width) (o : AluOp) (d s : ℕ) → d < 2 ^ 64 → s < 2 ^ 64 → alu_by w o d s < 2 ^ 64
alu_by-lt w32 o d s hd hs = omega (arith, alu32-lt o d s)
alu_by-lt w64 o d s hd hs = alu64-lt o d s hd hs

pub operand-lt :
    (s : State) (i : Inst) (src : Source) → IsState s → IsInst i → operand s i src < 2 ^ 64
unfolding operand
operand-lt s i imm h fit = i64-lt i.imm fit.imm_fits
operand-lt s i reg h fit = h.regs_fit i.src

unfoldable pub Fit : Next → Type 0
Fit = Leads IsState IsFitOutcome
