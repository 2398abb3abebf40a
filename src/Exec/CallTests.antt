-- ===== src/Exec/CallTests.antt =====
-- A local call of the interpreter of libs/ubpf/vm/ubpf_vm.c, round by round.
use appclick_ubpf.Prelude.{◌+◌, ◌^◌, ◌<◌, ◌≡◌, refl}
use appclick_ubpf.Prelude.{arith}
use appclick_ubpf.Words.{u16, i64, i64_of_i16}
use appclick_ubpf.Isa.{decode, cases, find_case, opcode_of}
use appclick_ubpf.Isa.Encoding.{inst_of, value_of}
use appclick_ubpf.Code.{fetch_instruction, scramble}
use appclick_ubpf.Memory.{mem_store, store_aligned, write_bytes, is_aligned}
use appclick_ubpf.Bounds.{bounds_check}
use appclick_ubpf.Shadow.{validate_shadow_register, mark_shadow_stack, mark_stays}
use appclick_ubpf.StackUsage.{stack_usage_for_local_func}
use appclick_ubpf.Vm.{create}
use appclick_ubpf.Machine.{start, State, next}
use appclick_ubpf.Perform.{perform, perform_call, call_local, perform_exit, perform_store, operand}
use appclick_ubpf.Exec.{
  step, run_inst, enter, is_exhausted, is_entry, is_int_func, is_called, execute, finish, leave,
}
use appclick_ubpf.Sample.{machine}
use appclick_ubpf.Exec.Sample.{run, first, following}
use appclick_ubpf.Exec.Calls.{still, round, CallOf, call_return, call_return_r10}

-- The states after the call, the store, the move and the return.
abbrev called : State
unfolding first following
called = following first

abbrev stored : State
unfolding following
stored = following called

abbrev last : State
unfolding following
last = following stored

abbrev back : State
unfolding following
back = following last

call_step : step run first ≡ next called
unfolding first following called stored last back start run machine create step run_inst enter
    is_exhausted is_entry is_int_func is_called execute finish leave perform perform_call call_local
    perform_exit perform_store operand bounds_check mark_shadow_stack mark_stays
    validate_shadow_register mem_store store_aligned write_bytes is_aligned
    stack_usage_for_local_func i64_of_i16 i64 decode cases find_case opcode_of fetch_instruction
    scramble inst_of value_of
call_step = refl

store_step : step run called ≡ next stored
unfolding first following called stored last back start run machine create step run_inst enter
    is_exhausted is_entry is_int_func is_called execute finish leave perform perform_call call_local
    perform_exit perform_store operand bounds_check mark_shadow_stack mark_stays
    validate_shadow_register mem_store store_aligned write_bytes is_aligned
    stack_usage_for_local_func i64_of_i16 i64 decode cases find_case opcode_of fetch_instruction
    scramble inst_of value_of
store_step = refl

move_step : step run stored ≡ next last
unfolding first following called stored last back start run machine create step run_inst enter
    is_exhausted is_entry is_int_func is_called execute finish leave perform perform_call call_local
    perform_exit perform_store operand bounds_check mark_shadow_stack mark_stays
    validate_shadow_register mem_store store_aligned write_bytes is_aligned
    stack_usage_for_local_func i64_of_i16 i64 decode cases find_case opcode_of fetch_instruction
    scramble inst_of value_of
move_step = refl

exit_step : step run last ≡ next back
unfolding first following called stored last back start run machine create step run_inst enter
    is_exhausted is_entry is_int_func is_called execute finish leave perform perform_call call_local
    perform_exit perform_store operand bounds_check mark_shadow_stack mark_stays
    validate_shadow_register mem_store store_aligned write_bytes is_aligned
    stack_usage_for_local_func i64_of_i16 i64 decode cases find_case opcode_of fetch_instruction
    scramble inst_of value_of
exit_step = refl

depth_called : called.stack_frame_index ≡ 1
unfolding first following called stored last back start run machine create step run_inst enter
    is_exhausted is_entry is_int_func is_called execute finish leave perform perform_call call_local
    perform_exit perform_store operand bounds_check mark_shadow_stack mark_stays
    validate_shadow_register mem_store store_aligned write_bytes is_aligned
    stack_usage_for_local_func i64_of_i16 i64 decode cases find_case opcode_of fetch_instruction
    scramble inst_of value_of
depth_called = refl

depth_stored : stored.stack_frame_index ≡ 1
unfolding first following called stored last back start run machine create step run_inst enter
    is_exhausted is_entry is_int_func is_called execute finish leave perform perform_call call_local
    perform_exit perform_store operand bounds_check mark_shadow_stack mark_stays
    validate_shadow_register mem_store store_aligned write_bytes is_aligned
    stack_usage_for_local_func i64_of_i16 i64 decode cases find_case opcode_of fetch_instruction
    scramble inst_of value_of
depth_stored = refl

depth_last : last.stack_frame_index ≡ 1
unfolding first following called stored last back start run machine create step run_inst enter
    is_exhausted is_entry is_int_func is_called execute finish leave perform perform_call call_local
    perform_exit perform_store operand bounds_check mark_shadow_stack mark_stays
    validate_shadow_register mem_store store_aligned write_bytes is_aligned
    stack_usage_for_local_func i64_of_i16 i64 decode cases find_case opcode_of fetch_instruction
    scramble inst_of value_of
depth_last = refl

depth_back : back.stack_frame_index ≡ 0
unfolding first following called stored last back start run machine create step run_inst enter
    is_exhausted is_entry is_int_func is_called execute finish leave perform perform_call call_local
    perform_exit perform_store operand bounds_check mark_shadow_stack mark_stays
    validate_shadow_register mem_store store_aligned write_bytes is_aligned
    stack_usage_for_local_func i64_of_i16 i64 decode cases find_case opcode_of fetch_instruction
    scramble inst_of value_of
depth_back = refl

depth_first : first.stack_frame_index ≡ 0
unfolding first start
depth_first = refl

returned_call : CallOf run first called last back
returned_call = record {
  calls = call_step;
  deeper = omega (arith, depth_called, depth_first);
  body = round (omega arith) store_step (
      round (omega (arith, depth_called, depth_stored)) move_step
        (still (omega (arith, depth_called, depth_last))));
  returns = exit_step;
  same_depth = omega (arith, depth_back, depth_first);
}

call_return_example :
    (back.pc ≡ u16 (first.pc + 1))
    × (back.reg 6 ≡ first.reg 6)
    × (back.reg 7 ≡ first.reg 7)
    × (back.reg 8 ≡ first.reg 8)
    × (back.reg 9 ≡ first.reg 9)
call_return_example = call_return run returned_call

r10_first : first.reg 10 < 2 ^ 64
unfolding first following called stored last back start run machine create step run_inst enter
    is_exhausted is_entry is_int_func is_called execute finish leave perform perform_call call_local
    perform_exit perform_store operand bounds_check mark_shadow_stack mark_stays
    validate_shadow_register mem_store store_aligned write_bytes is_aligned
    stack_usage_for_local_func i64_of_i16 i64 decode cases find_case opcode_of fetch_instruction
    scramble inst_of value_of
r10_first = omega arith

usage_called : (called.stack_frames first.stack_frame_index).stack_usage < 2 ^ 16
unfolding first following called stored last back start run machine create step run_inst enter
    is_exhausted is_entry is_int_func is_called execute finish leave perform perform_call call_local
    perform_exit perform_store operand bounds_check mark_shadow_stack mark_stays
    validate_shadow_register mem_store store_aligned write_bytes is_aligned
    stack_usage_for_local_func i64_of_i16 i64 decode cases find_case opcode_of fetch_instruction
    scramble inst_of value_of
usage_called = omega arith

r10_kept : last.reg 10 ≡ called.reg 10
unfolding first following called stored last back start run machine create step run_inst enter
    is_exhausted is_entry is_int_func is_called execute finish leave perform perform_call call_local
    perform_exit perform_store operand bounds_check mark_shadow_stack mark_stays
    validate_shadow_register mem_store store_aligned write_bytes is_aligned
    stack_usage_for_local_func i64_of_i16 i64 decode cases find_case opcode_of fetch_instruction
    scramble inst_of value_of
r10_kept = refl

call_return_r10_example : back.reg 10 ≡ first.reg 10
call_return_r10_example = call_return_r10 run returned_call r10_first usage_called r10_kept
