-- ===== src/Jit/Translate/Select.antt =====
-- The `switch` over the opcode in `translate` of libs/ubpf/vm/ubpf_jit_x86_64.c, and `muldivmod`:
-- the x86-64 instructions for one eBPF instruction. Registers are x86-64 registers here.
use appclick_ubpf.Prelude.{ℕ, bit_and, bit_or, Bool, not, ◌&&◌, ◌||◌, ◌==◌, ◌!=◌, if◌then◌else◌}
use appclick_ubpf.Words.{i64}
use appclick_ubpf.Isa.{
  Width, w32, w64, Source, imm, reg, AluOp, add, sub, mul, div, or, and, lsh, rsh, modulo, xor, mov,
  arsh, Cond, jeq, jgt, jge, jset, jne, jsgt, jsge, jlt, jle, jslt, jsle, Size, byte, half, word,
  dword,
}
use appclick_ubpf.Jit.State.{Emit, skip, when, ◌>>◌}
use appclick_ubpf.Jit.Emit.{rax, rcx, rdx, emit1, emit_rex, emit_basic_rex, to_int}
use appclick_ubpf.Jit.Emit.Instructions.{
  OperandSize, s8, s16, s32, s64, emit_push, emit_pop, emit_alu32, emit_alu32_imm32,
  emit_alu32_imm8, emit_alu64, emit_alu64_imm32, emit_alu64_imm8, emit_mov, emit_cmp_imm32,
  emit_cmp32_imm32, emit_cmp, emit_cmp32, emit_jcc, emit_load_imm,
}

-- What `muldivmod` reads from the opcode.
unfoldable pub is_alu_op : ℕ → ℕ → Bool
is_alu_op opcode op = bit_and opcode 0xf0 == op

-- The test of the divisor, before a division: the flags and, for MOD, the dividend are saved, and a
-- divisor 0 becomes 1.
unfoldable pub emit_divisor_test : Bool → Bool → Emit Unit
emit_divisor_test is64 is_mod = do
  if is64 then emit_alu64 0x85 rcx rcx else emit_alu32 0x85 rcx rcx
  when is_mod (emit_push rax)
  emit1 0x9c
  emit_load_imm rdx 1
  emit1 0x48
  emit1 0x0f
  emit1 0x44
  emit1 0xca
  emit_alu32 0x31 rdx rdx

-- After a division: the result where the divisor was 0.
unfoldable pub emit_zero_divisor : Bool → Emit Unit
emit_zero_divisor is_div = do
  emit1 0x9d
  when is_div (do emit_load_imm rcx 0; emit1 0x48; emit1 0x0f; emit1 0x44; emit1 0xc1)
  when (not is_div) (do emit_pop rcx; emit1 0x48; emit1 0x0f; emit1 0x44; emit1 0xd1)

-- The result to `dst`, and the saved registers back.
unfoldable pub emit_result : Bool → Bool → Bool → ℕ → Emit Unit
emit_result is_mul is_div is_mod dst = do
  when (dst != rdx) (do when is_mod (emit_mov rdx dst); emit_pop rdx)
  when (dst != rax) (do when (is_div || is_mul) (emit_mov rax dst); emit_pop rax)

unfoldable pub muldivmod : ℕ → ℕ → ℕ → ℕ → Emit Unit
muldivmod opcode src dst i =
    let is_mul = is_alu_op opcode 0x20 in
    let is_div = is_alu_op opcode 0x30 in
    let is_mod = is_alu_op opcode 0x90 in
    let is64 = bit_and opcode 0x07 == 0x07 in
    let is_reg = bit_and opcode 0x08 == 0x08 in
    if not is_reg && (i == 0)
    then (if is_div || is_mul then emit_alu32 0x31 dst dst else emit_mov dst dst)
    else (do
      when (dst != rax) (emit_push rax)
      when (dst != rdx) (emit_push rdx)
      if not is_reg then emit_load_imm rcx (i64 i) else emit_mov src rcx
      emit_mov dst rax
      when (is_div || is_mod) (emit_divisor_test is64 is_mod)
      when is64 (emit_rex 1 0 0 0)
      emit_alu32 0xf7 (if is_mul then 4 else 6) rcx
      when (is_div || is_mod) (emit_zero_divisor is_div)
      emit_result is_mul is_div is_mod dst)

-- The 32-bit or 64-bit form of an emitter.
unfoldable pub emit_alu : Width → ℕ → ℕ → ℕ → Emit Unit
emit_alu w32 op src dst = emit_alu32 op src dst
emit_alu w64 op src dst = emit_alu64 op src dst

unfoldable pub emit_alu_imm32 : Width → ℕ → ℕ → ℕ → ℕ → Emit Unit
emit_alu_imm32 w32 op src dst i = emit_alu32_imm32 op src dst i
emit_alu_imm32 w64 op src dst i = emit_alu64_imm32 op src dst i

unfoldable pub emit_alu_imm8 : Width → ℕ → ℕ → ℕ → ℕ → Emit Unit
emit_alu_imm8 w32 op src dst i = emit_alu32_imm8 op src dst i
emit_alu_imm8 w64 op src dst i = emit_alu64_imm8 op src dst i

-- `EBPF_OP_ADD_IMM` to `EBPF_OP_ARSH_REG` and their 64-bit kin.
unfoldable pub emit_alu_op : Width → AluOp → Source → ℕ → ℕ → ℕ → ℕ → Emit Unit
emit_alu_op w add imm opcode src dst i = emit_alu_imm32 w 0x81 0 dst i
emit_alu_op w add reg opcode src dst i = emit_alu w 0x01 src dst
emit_alu_op w sub imm opcode src dst i = emit_alu_imm32 w 0x81 5 dst i
emit_alu_op w sub reg opcode src dst i = emit_alu w 0x29 src dst
emit_alu_op w mul s opcode src dst i = muldivmod opcode src dst i
emit_alu_op w div s opcode src dst i = muldivmod opcode src dst i
emit_alu_op w modulo s opcode src dst i = muldivmod opcode src dst i
emit_alu_op w or imm opcode src dst i = emit_alu_imm32 w 0x81 1 dst i
emit_alu_op w or reg opcode src dst i = emit_alu w 0x09 src dst
emit_alu_op w and imm opcode src dst i = emit_alu_imm32 w 0x81 4 dst i
emit_alu_op w and reg opcode src dst i = emit_alu w 0x21 src dst
emit_alu_op w lsh imm opcode src dst i = emit_alu_imm8 w 0xc1 4 dst i
emit_alu_op w lsh reg opcode src dst i = do emit_mov src rcx; emit_alu w 0xd3 4 dst
emit_alu_op w rsh imm opcode src dst i = emit_alu_imm8 w 0xc1 5 dst i
emit_alu_op w rsh reg opcode src dst i = do emit_mov src rcx; emit_alu w 0xd3 5 dst
emit_alu_op w xor imm opcode src dst i = emit_alu_imm32 w 0x81 6 dst i
emit_alu_op w xor reg opcode src dst i = emit_alu w 0x31 src dst
emit_alu_op w32 mov imm opcode src dst i = emit_alu32_imm32 0xc7 0 dst i
emit_alu_op w64 mov imm opcode src dst i = emit_load_imm dst (i64 i)
emit_alu_op w mov reg opcode src dst i = emit_mov src dst
emit_alu_op w arsh imm opcode src dst i = emit_alu_imm8 w 0xc1 7 dst i
emit_alu_op w arsh reg opcode src dst i = do emit_mov src rcx; emit_alu w 0xd3 7 dst

-- `EBPF_OP_LE`.
unfoldable pub emit_le : ℕ → ℕ → Emit Unit
emit_le dst i =
    if i == 16
    then emit_alu32_imm32 0x81 4 dst 0xffff
    else when (i == 32) (emit_alu32_imm32 0x81 4 dst 0xffffffff)

-- `EBPF_OP_BE`.
unfoldable pub emit_be : ℕ → ℕ → Emit Unit
emit_be dst i =
    if i == 16
    then (do emit1 0x66; emit_alu32_imm8 0xc1 0 dst 8; emit_alu32_imm32 0x81 4 dst 0xffff)
    else when ((i == 32) || (i == 64)) (do
      emit_basic_rex (to_int (i == 64)) 0 dst
      emit1 0x0f
      emit1 (bit_or 0xc8 (bit_and dst 7)))

-- The condition in the opcode of the conditional jump.
unfoldable pub jcc_code : Cond → ℕ
jcc_code jeq = 0x84
jcc_code jgt = 0x87
jcc_code jge = 0x83
jcc_code jlt = 0x82
jcc_code jle = 0x86
jcc_code jset = 0x85
jcc_code jne = 0x85
jcc_code jsgt = 0x8f
jcc_code jsge = 0x8d
jcc_code jslt = 0x8c
jcc_code jsle = 0x8e

-- The comparison before a conditional jump.
unfoldable pub emit_compare : Width → Cond → Source → ℕ → ℕ → ℕ → Emit Unit
emit_compare w jset imm src dst i = emit_alu_imm32 w 0xf7 0 dst i
emit_compare w jset reg src dst i = emit_alu w 0x85 src dst
emit_compare w32 c imm src dst i = emit_cmp32_imm32 dst i
emit_compare w32 c reg src dst i = emit_cmp32 src dst
emit_compare w64 c imm src dst i = emit_cmp_imm32 dst i
emit_compare w64 c reg src dst i = emit_cmp src dst

-- `EBPF_OP_JEQ_IMM` to `EBPF_OP_JSLE32_REG`.
unfoldable pub emit_jump : Width → Cond → Source → ℕ → ℕ → ℕ → ℕ → Emit Unit
emit_jump w c s src dst i target_pc = do
  emit_compare w c s src dst i
  emit_jcc (jcc_code c) target_pc
  skip

unfoldable pub operand_size : Size → OperandSize
operand_size byte = s8
operand_size half = s16
operand_size word = s32
operand_size dword = s64
