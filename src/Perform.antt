-- ===== src/Perform.antt =====
-- The `switch` of `ubpf_exec_ex` in libs/ubpf/vm/ubpf_vm.c: what each instruction does to the state.
-- The program counter is already past the instruction.
use appclick_ubpf.Prelude.{ℕ, zero, suc, ◌+◌, ◌-◌, ◌*◌, ◌^◌, bit_or, not, ◌&&◌}
use appclick_ubpf.Prelude.{Option, none, some, ◌==◌, leb, if◌then◌else◌, update}
use appclick_ubpf.Words.{u16, u32, u64, i64, i64_of_i16}
use appclick_ubpf.Isa.{Inst, Source, imm, reg, Size, byte, half, word, dword, Op}
use appclick_ubpf.Isa.{alu, neg, le, be, ldx, st, stx, lddw, ja, jump, call, exit}
use appclick_ubpf.Memory.{Memory, mem_load, mem_store}
use appclick_ubpf.Vm.{max_call_depth, max_ext_funcs}
use appclick_ubpf.Code.{fetch_instruction}
use appclick_ubpf.Alu.{alu_by, negate, to_le, to_be}
use appclick_ubpf.Jump.{holds}
use appclick_ubpf.Bounds.{bounds_check}
use appclick_ubpf.Shadow.{check_shadow_stack, mark_shadow_stack, check_stays, mark_stays}
use appclick_ubpf.Machine.{Run, State, Next, next, halt, returned, failed, fault}

-- The second operand: the immediate extended by its sign, or the source register.
unfoldable pub operand : State → Inst → Source → ℕ
operand s i imm = i64 i.imm
operand s i reg = s.reg i.src

-- `reg[inst.dst] = value`.
abbrev pub write : State → ℕ → ℕ → State
write s r value = record s { reg = update s.reg r value }

-- `pc += offset` of a 16-bit program counter.
abbrev pub go : State → ℕ → State
go s offset = record s { pc = u16 (s.pc + offset) }

abbrev pub bytes_of : Size → ℕ
bytes_of byte = 1
bytes_of half = 2
bytes_of word = 4
bytes_of dword = 8

-- `reg[r] + inst.offset`.
abbrev pub address_of : State → ℕ → Inst → ℕ
address_of s r i = u64 (s.reg r + i64_of_i16 i.offset)

-- `BOUNDS_CHECK_LOAD` and the load.
unfoldable pub perform_load : Run → State → Inst → (size : ℕ) → Next
perform_load run s i size =
    let address = address_of s i.src i in
    if not (check_stays run.vm run.regions s.shadow_stack address size)
    then halt fault
    else if not (check_shadow_stack run.vm run.regions s.shadow_stack address size)
    then halt (failed s.memory)
    else if not (bounds_check run.vm run.regions address size)
    then halt (failed s.memory)
    else elim (mem_load s.memory address size) [
      | none ↦ halt fault
      | some value ↦ next (write s i.dst value)
    ]

-- `BOUNDS_CHECK_STORE` and the store.
unfoldable pub perform_store : Run → State → Inst → (value size : ℕ) → Next
perform_store run s i value size =
    let address = address_of s i.dst i in
    if not (bounds_check run.vm run.regions address size)
    then halt (failed s.memory)
    else if not (mark_stays run.vm run.regions address size)
    then halt fault
    else elim (mem_store s.memory address value size) [
      | none ↦ halt fault
      | some memory ↦ next (record s {
        shadow_stack = mark_shadow_stack run.vm run.regions s.shadow_stack address size;
        memory = memory;
      })
    ]

-- `case EBPF_OP_LDDW`: the upper half is the immediate of the next instruction.
unfoldable pub perform_lddw : Run → State → Inst → Next
perform_lddw run s i = elim (fetch_instruction run.vm s.pc) [
  | none ↦ halt fault
  | some upper ↦ next (go (write s i.dst (bit_or (u32 i.imm) (u64 (upper.imm * 2 ^ 32)))) 1)
]

-- `case EBPF_OP_EXIT`: back to the caller, or the end of the program.
unfoldable pub perform_exit : State → Next
perform_exit s = elim s.stack_frame_index [
  | zero ↦ halt (returned (s.reg 0) s.memory)
  | suc index ↦
      let frame = s.stack_frames index in
      next (record s {
        stack_frame_index = index;
        pc = frame.return_address;
        reg =
            update
              (update
                (update
                  (update (update s.reg 6 (frame.saved_registers 0)) 7 (frame.saved_registers 1)) 8
                  (frame.saved_registers 2))
                9 (frame.saved_registers 3))
              10 (u64 (s.reg 10 + frame.stack_usage));
      })
]

-- The external function behind an index: the dispatcher, or the entry of the table.
unfoldable pub external_function :
    Run → (index : ℕ) → Option (ℕ → ℕ → ℕ → ℕ → ℕ → Memory → ℕ × Memory)
external_function run index = elim run.vm.dispatcher [
  | some dispatcher ↦ some (λ a b c d e. dispatcher a b c d e index run.regions.mem)
  | none ↦ if leb max_ext_funcs index then none else run.vm.ext_funcs index
]

-- A call by address; the registered index unwinds when it gives 0.
unfoldable pub call_external : Run → State → Inst → Next
unfolding external_function
call_external run s i = elim (external_function run i.imm) [
  | none ↦ halt fault
  | some f ↦
      let answer = f (s.reg 1) (s.reg 2) (s.reg 3) (s.reg 4) (s.reg 5) s.memory in
      if (i.imm == run.vm.unwind_stack_extension_index) && (answer.0 == 0)
      then halt (returned (answer.0) (answer.1))
      else next (record s { reg = update s.reg 0 (answer.0); memory = answer.1 })
]

-- A call of a function of the program.
unfoldable pub call_local : State → Inst → Next
call_local s i =
    if leb max_call_depth s.stack_frame_index
    then halt (failed s.memory)
    else (let frame = s.stack_frames s.stack_frame_index in
        next (record s {
          stack_frames = update s.stack_frames s.stack_frame_index (record frame {
            saved_registers =
                update
                  (update (update (update frame.saved_registers 0 (s.reg 6)) 1 (s.reg 7)) 2
                    (s.reg 8))
                  3 (s.reg 9);
            return_address = s.pc;
          });
          reg = update s.reg 10 (u64 (s.reg 10 + 2 ^ 64 - frame.stack_usage));
          stack_frame_index = s.stack_frame_index + 1;
          pc = u16 (s.pc + i.imm);
        }))

-- `case EBPF_OP_CALL`.
unfoldable pub perform_call : Run → State → Inst → Next
unfolding call_external call_local
perform_call run s i =
    if i.src == 0
    then call_external run s i
    else if i.src == 1
    then call_local s i
    else if i.src == 2
    then halt (failed s.memory)
    else next s

unfoldable pub perform : Run → State → Inst → Op → Next
unfolding operand perform_load perform_store perform_lddw perform_exit perform_call
perform run s i (alu w o src) = next (write s i.dst (alu_by w o (s.reg i.dst) (operand s i src)))
perform run s i (neg w) = next (write s i.dst (negate w (s.reg i.dst)))
perform run s i le = next (write s i.dst (to_le i.imm (s.reg i.dst)))
perform run s i be = next (write s i.dst (to_be i.imm (s.reg i.dst)))
perform run s i (ldx z) = perform_load run s i (bytes_of z)
perform run s i (st z) = perform_store run s i (i64 i.imm) (bytes_of z)
perform run s i (stx z) = perform_store run s i (s.reg i.src) (bytes_of z)
perform run s i lddw = perform_lddw run s i
perform run s i ja = next (go s i.offset)
perform run s i (jump w c src) =
    if holds w c (s.reg i.dst) (operand s i src) then next (go s i.offset) else next s
perform run s i call = perform_call run s i
perform run s i exit = perform_exit s
