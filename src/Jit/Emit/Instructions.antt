-- ===== src/Jit/Emit/Instructions.antt =====
-- The emitters of libs/ubpf/vm/ubpf_jit_x86_64.h for whole instructions, and the call of an external
-- helper (on the System V calling convention, with retpolines).
use appclick_ubpf.Prelude.{
  ℕ, ◌-◌, ◌^◌, bit_and, bit_or, Bool, true, false, ◌&&◌, ◌||◌, if◌then◌else◌, ◌==◌,
}
use appclick_ubpf.Words.{pos, negsuc, leb_ℤ, signed64}
use appclick_ubpf.Vm.{max_insts}
use appclick_ubpf.Jit.State.{
  JitState, too_many_loads, too_many_leas, target_pc_external_dispatcher, target_load_helper_table,
  target_pc_retpoline, Emit, pure, gets, when, ◌>>=◌, ◌>>◌,
}
use appclick_ubpf.Jit.Support.{note_load, note_lea, emit_jump_target}
use appclick_ubpf.Jit.Emit.{
  rax, volatile_ctxt, emit1, emit2, emit4, emit8, emit_4byte_offset_placeholder, set_jit_status,
  emit_jump_address_reloc, emit_near_jump_address_reloc, emit_modrm, emit_modrm_reg2reg,
  emit_modrm_and_displacement, emit_rex, emit_basic_rex, is_high, to_int,
}

-- `enum operand_size`.
pub data OperandSize : Type 0 where
  s8 s16 s32 s64 : OperandSize

abbrev is_s8 : OperandSize → Bool
is_s8 s8 = true
is_s8 _ = false

abbrev is_s16 : OperandSize → Bool
is_s16 s16 = true
is_s16 _ = false

abbrev is_s64 : OperandSize → Bool
is_s64 s64 = true
is_s64 _ = false

unfoldable pub emit_push : ℕ → Emit Unit
emit_push r = do emit_basic_rex 0 0 r; emit1 (bit_or 0x50 (bit_and r 7))

unfoldable pub emit_pop : ℕ → Emit Unit
emit_pop r = do emit_basic_rex 0 0 r; emit1 (bit_or 0x58 (bit_and r 7))

unfoldable pub emit_alu32 : ℕ → ℕ → ℕ → Emit Unit
emit_alu32 op src dst = do emit_basic_rex 0 src dst; emit1 op; emit_modrm_reg2reg src dst

unfoldable pub emit_alu32_imm32 : ℕ → ℕ → ℕ → ℕ → Emit Unit
emit_alu32_imm32 op src dst i = do emit_alu32 op src dst; emit4 i

unfoldable pub emit_alu32_imm8 : ℕ → ℕ → ℕ → ℕ → Emit Unit
emit_alu32_imm8 op src dst i = do emit_alu32 op src dst; emit1 i

unfoldable pub emit_truncate_u32 : ℕ → Emit Unit
emit_truncate_u32 destination = emit_alu32_imm32 0x81 4 destination (2 ^ 32 - 1)

unfoldable pub emit_alu64 : ℕ → ℕ → ℕ → Emit Unit
emit_alu64 op src dst = do emit_basic_rex 1 src dst; emit1 op; emit_modrm_reg2reg src dst

unfoldable pub emit_alu64_imm32 : ℕ → ℕ → ℕ → ℕ → Emit Unit
emit_alu64_imm32 op src dst i = do emit_alu64 op src dst; emit4 i

unfoldable pub emit_alu64_imm8 : ℕ → ℕ → ℕ → ℕ → Emit Unit
emit_alu64_imm8 op src dst i = do emit_alu64 op src dst; emit1 i

unfoldable pub emit_mov : ℕ → ℕ → Emit Unit
emit_mov src dst = emit_alu64 0x89 src dst

unfoldable pub emit_cmp_imm32 : ℕ → ℕ → Emit Unit
emit_cmp_imm32 dst i = emit_alu64_imm32 0x81 7 dst i

unfoldable pub emit_cmp32_imm32 : ℕ → ℕ → Emit Unit
emit_cmp32_imm32 dst i = emit_alu32_imm32 0x81 7 dst i

unfoldable pub emit_cmp : ℕ → ℕ → Emit Unit
emit_cmp src dst = emit_alu64 0x39 src dst

unfoldable pub emit_cmp32 : ℕ → ℕ → Emit Unit
emit_cmp32 src dst = emit_alu32 0x39 src dst

unfoldable pub emit_jcc : ℕ → ℕ → Emit ℕ
emit_jcc code target_pc = do emit1 0x0f; emit1 code; emit_jump_address_reloc target_pc

-- The opcode of `emit_load`.
unfoldable pub emit_load_opcode : OperandSize → Emit Unit
emit_load_opcode s8 = do emit1 0x0f; emit1 0xb6
emit_load_opcode s16 = do emit1 0x0f; emit1 0xb7
emit_load_opcode s32 = emit1 0x8b
emit_load_opcode s64 = emit1 0x8b

unfoldable pub emit_load : OperandSize → ℕ → ℕ → ℕ → Emit Unit
emit_load size src dst offset = do
  emit_basic_rex (to_int (is_s64 size)) dst src
  emit_load_opcode size
  emit_modrm_and_displacement dst src offset

-- `imm >= INT32_MIN && imm <= INT32_MAX`.
unfoldable pub is_int32 : ℕ → Bool
is_int32 x = leb_ℤ (negsuc (2 ^ 31 - 1)) (signed64 x) && leb_ℤ (signed64 x) (pos (2 ^ 31 - 1))

unfoldable pub emit_load_imm : ℕ → ℕ → Emit Unit
emit_load_imm dst i =
    if is_int32 i
    then emit_alu64_imm32 0xc7 0 dst i
    else (do emit_basic_rex 1 0 dst; emit1 (bit_or 0xb8 (bit_and dst 7)); emit8 i)

-- The bytes before the address of a load or lea relative to RIP.
unfoldable pub emit_rip_relative_prefix : ℕ → ℕ → ℕ → Emit Unit
emit_rip_relative_prefix r op dst = do emit_rex 1 r 0 0; emit1 op; emit_modrm 0 dst 0x05

unfoldable pub emit_rip_relative_load : ℕ → ℕ → Emit ℕ
emit_rip_relative_load dst relative_load_tgt state =
    if state.num_loads == max_insts
    then (set_jit_status too_many_loads >> pure 0) state
    else (do
      emit_rip_relative_prefix 0 0x8b dst
      load_target_offset ← gets (λ (s : JitState). s.offset)
      note_load relative_load_tgt
      emit_4byte_offset_placeholder
      pure load_target_offset)
        state

unfoldable pub emit_rip_relative_lea : ℕ → ℕ → Emit Unit
emit_rip_relative_lea dst lea_tgt state =
    if state.num_leas == max_insts
    then set_jit_status too_many_leas state
    else (do emit_rip_relative_prefix 1 0x8d dst; note_lea lea_tgt; emit_4byte_offset_placeholder)
        state

unfoldable pub emit_store : OperandSize → ℕ → ℕ → ℕ → Emit Unit
emit_store size src dst offset = do
  when (is_s16 size) (emit1 0x66)
  let rexw = is_s64 size
  when (rexw || (is_high src || (is_high dst || is_s8 size)))
      (emit_rex (to_int rexw) (to_int (is_high src)) 0 (to_int (is_high dst)))
  emit1 (if is_s8 size then 0x88 else 0x89)
  emit_modrm_and_displacement src dst offset

-- The immediate of `emit_store_imm32`.
unfoldable pub emit_sized : OperandSize → ℕ → Emit Unit
emit_sized s8 i = emit1 i
emit_sized s16 i = emit2 i
emit_sized s32 i = emit4 i
emit_sized s64 i = emit4 i

unfoldable pub emit_store_imm32 : OperandSize → ℕ → ℕ → ℕ → Emit Unit
emit_store_imm32 size dst offset i = do
  when (is_s16 size) (emit1 0x66)
  emit_basic_rex (to_int (is_s64 size)) 0 dst
  emit1 (if is_s8 size then 0xc6 else 0xc7)
  emit_modrm_and_displacement 0 dst offset
  emit_sized size i

unfoldable pub emit_ret : Emit Unit
emit_ret = emit1 0xc3

unfoldable pub emit_jmp : ℕ → Emit ℕ
emit_jmp target_pc = do emit1 0xe9; emit_jump_address_reloc target_pc

unfoldable pub emit_near_jmp : ℕ → Emit ℕ
emit_near_jmp target_pc = do emit1 0xeb; emit_near_jump_address_reloc target_pc

unfoldable pub emit_call : ℕ → Emit ℕ
emit_call target_pc = do
  emit1 0xe8
  call_src ← gets (λ (s : JitState). s.offset)
  emit_jump_address_reloc target_pc
  pure call_src

unfoldable pub emit_pause : Emit Unit
emit_pause = do emit1 0xf3; emit1 0x90

-- The test for a dispatcher, and the call's target and last argument where there is none, up to the
-- jump over the other branch. Returns the place of the conditional jump's offset.
unfoldable pub emit_default_dispatcher : ℕ → Emit ℕ
emit_default_dispatcher idx = do
  emit_rip_relative_load rax target_pc_external_dispatcher
  emit_cmp_imm32 rax 0
  skip_default_dispatcher_source ← emit_jcc 0x85 0
  emit_alu32 0xc7 0 rax
  emit4 idx
  emit_alu64_imm8 0xc1 4 rax 3
  emit_rip_relative_lea 10 target_load_helper_table
  emit_alu64 0x01 10 rax
  emit_load s64 rax rax 0
  emit_mov volatile_ctxt 9
  pure skip_default_dispatcher_source

unfoldable pub emit_dispatched_external_helper_call : ℕ → Emit Unit
emit_dispatched_external_helper_call idx = do
  emit_push volatile_ctxt
  emit_push volatile_ctxt
  skip_default_dispatcher_source ← emit_default_dispatcher idx
  emit1 0xe9
  skip_external_dispatcher_source ← gets (λ (s : JitState). s.offset)
  emit_4byte_offset_placeholder
  emit_jump_target skip_default_dispatcher_source
  emit_load_imm 9 idx
  emit_jump_target skip_external_dispatcher_source
  emit_call target_pc_retpoline
  emit_pop volatile_ctxt
  emit_pop volatile_ctxt
