-- ===== src/Exec.antt =====
-- The interpreter, `ubpf_exec_ex` and `ubpf_exec` of libs/ubpf/vm/ubpf_vm.c: the body of its loop
-- as a function on the state, and the loop on fuel.
pub mod Rules
pub mod Fuel
pub mod Faultless
pub mod Safety
pub mod Loaded
pub mod Moves
pub mod Calls
pub mod Masks
pub mod Ranges
pub mod Fits
pub mod Sample
pub mod Tests
pub mod CallTests
use appclick_ubpf.Prelude.{
  ℕ, zero, suc, ◌+◌, ◌-◌, ◌%◌, ◌^◌, bit_and, Bool, true, false, not, ◌&&◌, ◌||◌,
}
use appclick_ubpf.Prelude.{
  Option, none, some, ◌==◌, ◌!=◌, ltb, leb, if◌then◌else◌, get_elem?, update,
}
use appclick_ubpf.Words.{u16, u32}
use appclick_ubpf.Isa.{Inst, call, opcode_of, decode}
use appclick_ubpf.Memory.{Memory}
use appclick_ubpf.Vm.{Vm, max_call_depth, ebpf_stack_size}
use appclick_ubpf.StackUsage.{stack_usage_for_local_func}
use appclick_ubpf.Code.{fetch_instruction}
use appclick_ubpf.Bounds.{Regions}
use appclick_ubpf.Shadow.{validate_shadow_register}
use appclick_ubpf.Machine.{Run, State, StackFrame, Next, next, halt, Outcome, failed, fault, start}
use appclick_ubpf.Perform.{write, perform}

-- `vm->int_funcs[pc]`; only asked of a program counter in the program.
unfoldable pub is_int_func : Vm → ℕ → Bool
is_int_func vm pc = elim (get_elem? vm.int_funcs pc) [ none ↦ false | some called ↦ called ]

-- `vm->instruction_limit && instruction_limit-- <= 0`, without the decrement.
unfoldable pub is_exhausted : Vm → State → Bool
is_exhausted vm s =
    (vm.instruction_limit != 0) && ((s.instruction_limit == 0) || leb (2 ^ 31) s.instruction_limit)

-- The start of a function, with room for its frame.
unfoldable pub is_entry : Vm → State → Bool
unfolding is_int_func
is_entry vm s = ((s.pc == 0) || is_int_func vm s.pc) && ltb s.stack_frame_index max_call_depth

-- Whether the round before was the first of all or called a local function.
unfoldable pub is_called : State → Bool
is_called s =
    (s.previous_inst.opcode == 0)
    || ((s.previous_inst.opcode == opcode_of call) && (s.previous_inst.src == 1))

-- The state that the instruction is run in: the limit is counted down, the frame of a function
-- that starts gets its stack usage, and the program counter is past the instruction.
unfoldable pub enter : Vm → State → State
unfolding is_entry
enter vm s = record s {
  instruction_limit =
      if vm.instruction_limit == 0 then s.instruction_limit else s.instruction_limit - 1;
  stack_frames =
      if is_entry vm s
      then update s.stack_frames s.stack_frame_index (record (s.stack_frames s.stack_frame_index) {
        stack_usage = stack_usage_for_local_func vm s.pc;
      })
      else s.stack_frames;
  pc = u16 (s.pc + 1);
}

-- After the `switch`: 32-bit arithmetic clears the upper half of its destination, except for LE
-- and BE.
unfoldable pub leave : Inst → State → State
leave i s = record s {
  reg =
      if (bit_and i.opcode 0x07 == 0x04) && (bit_and i.opcode 0xf0 != 0xd0)
      then update s.reg i.dst (u32 (s.reg i.dst))
      else s.reg;
  previous_inst = i;
}

unfoldable pub finish : Inst → Next → Next
unfolding leave
finish i (halt outcome) = halt outcome
finish i (next s) = next (leave i s)

-- The `switch` and what follows it.
unfoldable pub execute : Run → State → Inst → Next
unfolding perform finish
execute run s i = elim (decode i.opcode) [
  | none ↦ halt (failed s.memory)
  | some op ↦ finish i (perform run s i op)
]

-- The instruction at the program counter, if the registers it reads have been written.
abbrev pub entered : Run → State → ℕ → State
unfolding enter
entered run s shadow = record (enter run.vm s) { shadow_registers = shadow }

unfoldable pub run_inst : Run → State → Next
unfolding enter execute
run_inst run s = elim (fetch_instruction run.vm s.pc) [
  | none ↦ halt fault
  | some i ↦ elim (validate_shadow_register run.vm s.shadow_registers i) [
    | none ↦ halt (failed s.memory)
    | some shadow ↦ execute run (entered run s shadow) i
  ]
]

-- The body of `while (1)`.
unfoldable pub step : Run → State → Next
unfolding is_exhausted is_entry is_called run_inst
step run s =
    if leb run.vm.num_insts s.pc
    then halt (failed s.memory)
    else if is_exhausted run.vm s
    then halt (failed s.memory)
    else if is_entry run.vm s && (not (is_called s) && run.vm.undefined_behavior_check_enabled)
    then halt (failed s.memory)
    else run_inst run s

-- `n` rounds at most; `none` when they do not end the run.
unfoldable pub loop : Run → ℕ → State → Option Outcome
unfolding step
loop run zero s = none
loop run (suc n) s = elim (step run s) [ halt outcome ↦ some outcome | next s' ↦ loop run n s' ]

-- `ubpf_exec_ex`, where the shadow stack can be allocated.
unfoldable pub exec_ex : Run → (garbage : ℕ → ℕ) → Memory → (fuel : ℕ) → Option Outcome
unfolding start loop
exec_ex run garbage memory fuel = elim run.vm.insts [
  | none ↦ some (failed memory)
  | some _ ↦ loop run fuel (start run garbage memory)
]

-- `ubpf_exec`: the stack is a local array, at an address that the host chooses.
unfoldable pub exec :
    Vm → (mem mem_len stack : ℕ) → (garbage : ℕ → ℕ) → Memory → (fuel : ℕ) → Option Outcome
unfolding exec_ex
exec vm mem mem_len stack garbage memory fuel =
    exec_ex
      (record {
        vm = vm;
        regions = record {
          mem = mem;
          mem_len = mem_len;
          stack_start = stack;
          stack_length = ebpf_stack_size;
        };
      })
      garbage memory fuel
