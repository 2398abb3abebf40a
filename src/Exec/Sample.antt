-- ===== src/Exec/Sample.antt =====
-- A run of the sample program by the interpreter of libs/ubpf/vm/ubpf_vm.c.
use appclick_ubpf.Prelude.{some}
use appclick_ubpf.Memory.{Memory}
use appclick_ubpf.Machine.{Run, State, next, halt, start}
use appclick_ubpf.Exec.{step}
use appclick_ubpf.Sample.{machine}

unfoldable pub run : Run
unfolding machine
run = record {
  vm = machine;
  regions = record { mem = 0x1000; mem_len = 64; stack_start = 0x2000; stack_length = 5120 };
}

-- All of memory is mapped.
abbrev pub zeros : Memory
zeros = λ _. some 0

unfoldable pub first : State
unfolding start run
first = start run (λ _. 0) zeros

-- The state after the next round, or the same one at the end.
unfoldable pub following : State → State
unfolding step
following s = elim (step run s) [ next s' ↦ s' | halt _ ↦ s ]
