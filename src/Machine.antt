-- ===== src/Machine.antt =====
-- The local variables of `ubpf_exec_ex` (libs/ubpf/vm/ubpf_vm.c) as a state, with
-- `struct ubpf_stack_frame` of libs/ubpf/vm/ubpf_int.h.
use appclick_ubpf.Prelude.{ℕ, ◌+◌, bit_or, update}
use appclick_ubpf.Words.{u64}
use appclick_ubpf.Isa.{Inst}
use appclick_ubpf.Memory.{Memory}
use appclick_ubpf.Vm.{Vm}
use appclick_ubpf.Bounds.{Regions}
use appclick_ubpf.Shadow.{ShadowStack, shadow_mask}

-- `struct ubpf_stack_frame`.
pub record StackFrame : Type 0 where
  pub stack_usage : ℕ
  pub return_address : ℕ
  pub saved_registers : ℕ → ℕ

-- What stays the same during a run. The cookie for the dispatcher is the address of the memory.
pub record Run : Type 0 where
  pub vm : Vm
  pub regions : Regions

-- What the loop changes, with the memory that the program reaches. `instruction_limit` is the
-- pattern of an `int`.
pub record State : Type 0 where
  pub pc : ℕ
  pub reg : ℕ → ℕ
  pub stack_frame_index : ℕ
  pub stack_frames : ℕ → StackFrame
  pub shadow_registers : ℕ
  pub shadow_stack : ShadowStack
  pub previous_inst : Inst
  pub instruction_limit : ℕ
  pub memory : Memory

-- How a run ends: with the result 0 and a value, with the result -1, or in a crash of the process
-- (an access of memory that is not mapped, a call of a null pointer).
pub data Outcome : Type 0 where
  returned : (value : ℕ) → Memory → Outcome
  failed : Memory → Outcome
  fault : Outcome

-- What one round of the loop does.
pub data Next : Type 0 where
  next : State → Next
  halt : Outcome → Next

-- `struct ebpf_inst previous_inst = {.opcode = 0}`.
abbrev pub no_inst : Inst
no_inst = record { opcode = 0; dst = 0; src = 0; offset = 0; imm = 0 }

-- `stack_frames[UBPF_MAX_CALL_DEPTH] = {0}`.
abbrev pub no_frame : StackFrame
no_frame = record { stack_usage = 0; return_address = 0; saved_registers = λ _. 0 }

-- The state before the first round. `garbage` is what the uninitialised registers hold.
unfoldable pub start : Run → (garbage : ℕ → ℕ) → Memory → State
start run garbage memory = record {
  pc = 0;
  reg =
      update (update (update garbage 1 run.regions.mem) 2 run.regions.mem_len) 10
        (u64 (run.regions.stack_start + run.regions.stack_length));
  stack_frame_index = 0;
  stack_frames = λ _. no_frame;
  shadow_registers = bit_or (bit_or (shadow_mask 1) (shadow_mask 2)) (shadow_mask 10);
  shadow_stack = λ _. 0;
  previous_inst = no_inst;
  instruction_limit = run.vm.instruction_limit;
  memory = memory;
}

-- What holds of the state after a round, or of the outcome.
abbrev pub Leads : (State → Type 0) → (Outcome → Type 0) → Next → Type 0
Leads P Q (next s) = P s
Leads P Q (halt o) = Q o
