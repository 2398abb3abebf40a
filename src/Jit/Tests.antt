-- ===== src/Jit/Tests.antt =====
-- Runs of the code generator of libs/ubpf/vm/ubpf_jit_x86_64.c.
use appclick_ubpf.Prelude.{arith, ℕ, ◌+◌, ◌≡◌, refl, true, Option, some, [], ◌∷◌}
use appclick_ubpf.Vm.{Vm, create, jit_compile_success, ExternalFunction, Dispatcher, basic_jit_mode}
use appclick_ubpf.Code.{fetch_instruction, scramble}
use appclick_ubpf.Isa.Encoding.{inst_of, value_of}
use appclick_ubpf.Isa.{
  decode, find_case, cases, opcode_of, alu_class, jmp_class, source_bit, alu_code, cond_code,
  size_code,
}
use appclick_ubpf.StackUsage.{stack_usage_for_local_func}
use appclick_ubpf.Jit.State.{
  JitState, blank, no_error, not_enough_space, modify, skip, when, pure, gets, ◌>>=◌,
}
use appclick_ubpf.Jit.Support.{
  Allocated, initialize_jit_state_result, emit_patchable_relative_ex, fixup_jump_target,
}
use appclick_ubpf.Jit.Emit.{
  le_bytes, copy_bytes, emit_bytes, emit1, emit4, emit8, emit_4byte_offset_placeholder,
  set_jit_status, note_jump, emit_jump_address_reloc, emit_modrm, emit_modrm_reg2reg, is_int8,
  emit_rex, is_high, emit_basic_rex,
}
use appclick_ubpf.Jit.Emit.Instructions.{
  emit_push, emit_pop, emit_alu64, emit_alu64_imm32, emit_mov, emit_ret, emit_jmp, emit_call,
  emit_pause,
}
use appclick_ubpf.Jit.Translate.{
  translate, translated, translate_insts, translate_inst, after_round, emit_fallthrough_jump,
  emit_function_prolog, starts_function, falls_through, fix_fallthrough, emit_op, emit_pushes,
  emit_pops, emit_retpoline, map_register, register_map, emit_dispatched_external_helper_address,
  emit_helpers, set_register_offset, emit_helper_table, emit_epilogue, emit_prologue, emit_stack,
}
use appclick_ubpf.Jit.Translate.Registers.{Rearranged, set_register_offset-Rearranged}
use appclick_ubpf.Words.{pos}
use appclick_ubpf.Jit.Resolve.{
  finish_translation, resolve_patchable_relatives, each, resolve_jump, resolve_local_call,
  resolve_load, resolve_lea, patch, relative, jump_target_loc, translate_x86_64,
}
use appclick_ubpf.Jit.Resolve.Promises.{Leaves, IsWhole, KeepsBeyond, IsExplained, Fits}
use appclick_ubpf.Jit.Resolve.Slots.Whole.{WithSlots}
use appclick_ubpf.Jit.Resolve.Guarantees.{
  translate_x86_64-KeepsBeyond, translate_x86_64-Fits, translate_x86_64-IsExplained,
  translate_x86_64-EndsWithSlots,
}

abbrev roomy : JitState
roomy = record (blank (λ _. 0)) { size = 2000 }

abbrev no_function : Option ExternalFunction → ℕ
no_function f = 0

abbrev no_dispatcher : Option Dispatcher → ℕ
no_dispatcher d = 0

-- exit
abbrev quitter : Vm
quitter = record create {
  insts = some (record { address = 0; stored = inst_of 0x95 ∷ [] });
  num_insts = 1;
}

-- The whole code for it has 624 bytes; the helper table starts at 112.
exit_run :
    let r = translate register_map no_function no_dispatcher quitter roomy in
    (r.0 ≡ translated)
    × (r.1.jit_status ≡ no_error)
    × (r.1.offset ≡ 624)
    × (r.1.exit_loc ≡ 66)
    × (r.1.retpoline_loc ≡ 87)
    × (r.1.helper_table_loc ≡ 112)
unfolding translate emit_prologue emit_pushes emit_push emit_basic_rex emit_rex is_high when skip
    emit1 emit_bytes le_bytes copy_bytes modify ◌>>=◌ map_register emit_mov emit_alu64
    emit_modrm_reg2reg emit_modrm emit_alu64_imm32 emit4 emit_stack gets emit_jmp
    emit_jump_address_reloc set_jit_status note_jump pure emit_4byte_offset_placeholder
    emit_patchable_relative_ex create translate_insts translate_inst after_round fetch_instruction
    scramble emit_fallthrough_jump emit_function_prolog starts_function falls_through
    stack_usage_for_local_func fix_fallthrough emit_op decode find_case cases opcode_of alu_class
    jmp_class source_bit alu_code cond_code size_code emit_ret emit_epilogue emit_pops
    emit_retpoline emit_call emit_pause fixup_jump_target emit_dispatched_external_helper_address
    emit_helper_table emit_helpers emit8 value_of inst_of emit_pop
exit_run = (refl, refl, refl, refl, refl, refl)

-- A buffer that ends where the retpoline would start: `translate` returns 0 with an error, and
-- `resolve_patchable_relatives` then writes to the byte after the buffer.
overrun :
    let r = translate register_map no_function no_dispatcher quitter (record roomy { size = 87 }) in
    (r.0 ≡ translated)
    × (r.1.jit_status ≡ not_enough_space)
    × ((resolve_patchable_relatives r.1).1.buf 87 ≡ 0xfc)
unfolding translate emit_prologue emit_pushes emit_push emit_basic_rex emit_rex is_high when skip
    emit1 emit_bytes le_bytes copy_bytes modify ◌>>=◌ map_register emit_mov emit_alu64
    emit_modrm_reg2reg emit_modrm emit_alu64_imm32 emit4 emit_stack gets emit_jmp
    emit_jump_address_reloc set_jit_status note_jump pure emit_4byte_offset_placeholder
    emit_patchable_relative_ex create translate_insts translate_inst after_round fetch_instruction
    scramble emit_fallthrough_jump emit_function_prolog starts_function falls_through
    stack_usage_for_local_func fix_fallthrough emit_op decode find_case cases opcode_of alu_class
    jmp_class source_bit alu_code cond_code size_code emit_ret emit_epilogue emit_pops
    emit_retpoline emit_call emit_pause fixup_jump_target emit_dispatched_external_helper_address
    emit_helper_table emit_helpers emit8 value_of inst_of emit_pop resolve_patchable_relatives each
    resolve_jump resolve_local_call resolve_load resolve_lea patch relative jump_target_loc is_int8
overrun = (refl, refl, refl)

abbrev all_given : Allocated
all_given = record {
  pc_locs_given = true;
  jumps_given = true;
  loads_given = true;
  leas_given = true;
  local_calls_given = true;
}

-- The compilation of `exit` succeeds, and its code is whole.
exit-IsWhole :
    Leaves
      (λ c. (c.result.compile_result ≡ jit_compile_success) × IsWhole c)
      (translate_x86_64 register_map no_function no_dispatcher all_given roomy create.jitted_result
        quitter
        (λ _. 0)
        2000
        basic_jit_mode)
unfolding translate emit_prologue emit_pushes emit_push emit_basic_rex emit_rex is_high when skip
    emit1 emit_bytes le_bytes copy_bytes modify ◌>>=◌ map_register emit_mov emit_alu64
    emit_modrm_reg2reg emit_modrm emit_alu64_imm32 emit4 emit_stack gets emit_jmp
    emit_jump_address_reloc set_jit_status note_jump pure emit_4byte_offset_placeholder
    emit_patchable_relative_ex create translate_insts translate_inst after_round fetch_instruction
    scramble emit_fallthrough_jump emit_function_prolog starts_function falls_through
    stack_usage_for_local_func fix_fallthrough emit_op decode find_case cases opcode_of alu_class
    jmp_class source_bit alu_code cond_code size_code emit_ret emit_epilogue emit_pops
    emit_retpoline emit_call emit_pause fixup_jump_target emit_dispatched_external_helper_address
    emit_helper_table emit_helpers emit8 value_of inst_of emit_pop initialize_jit_state_result
    translate_x86_64 finish_translation resolve_patchable_relatives each resolve_jump
    resolve_local_call resolve_load resolve_lea patch relative jump_target_loc is_int8
exit-IsWhole = (refl, refl)

translate_x86_64-KeepsBeyond_example : Leaves (KeepsBeyond (λ _. 0) 2000) (
    translate_x86_64 register_map no_function no_dispatcher all_given roomy create.jitted_result
      quitter
      (λ _. 0)
      2000
      basic_jit_mode)
translate_x86_64-KeepsBeyond_example =
    translate_x86_64-KeepsBeyond register_map no_function no_dispatcher all_given roomy
      create.jitted_result quitter (λ _. 0) 2000 basic_jit_mode (omega arith)

translate_x86_64-Fits_example : Leaves (Fits 2000) (
    translate_x86_64 register_map no_function no_dispatcher all_given roomy create.jitted_result
      quitter
      (λ _. 0)
      2000
      basic_jit_mode)
translate_x86_64-Fits_example =
    translate_x86_64-Fits register_map no_function no_dispatcher all_given roomy
      create.jitted_result quitter (λ _. 0) 2000 basic_jit_mode (omega arith)

translate_x86_64-IsExplained_example : Leaves IsExplained (
    translate_x86_64 register_map no_function no_dispatcher all_given roomy create.jitted_result
      quitter
      (λ _. 0)
      40
      basic_jit_mode)
translate_x86_64-IsExplained_example =
    translate_x86_64-IsExplained register_map no_function no_dispatcher all_given roomy
      create.jitted_result quitter (λ _. 0) 40 basic_jit_mode (omega arith)

translate_x86_64-EndsWithSlots_example :
    Leaves (WithSlots register_map no_function no_dispatcher quitter) (
      translate_x86_64 register_map no_function no_dispatcher all_given roomy create.jitted_result
        quitter
        (λ _. 0)
        2000
        basic_jit_mode)
translate_x86_64-EndsWithSlots_example =
    translate_x86_64-EndsWithSlots register_map no_function no_dispatcher all_given roomy
      create.jitted_result quitter (λ _. 0) 2000 basic_jit_mode (omega arith)

-- A generator that gives the seed, and counts it up.
abbrev counter : ℕ → ℕ × ℕ
counter seed = (seed, seed + 1)

set_register_offset-Rearranged_example :
    Rearranged register_map (pos 100) (set_register_offset counter register_map (pos 100))
set_register_offset-Rearranged_example =
    set_register_offset-Rearranged counter register_map (pos 100) refl
