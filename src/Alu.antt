-- ===== src/Alu.antt =====
-- The arithmetic cases of the `switch` in `ubpf_exec_ex` (libs/ubpf/vm/ubpf_vm.c). The operands are
-- 64-bit patterns: of a register, or of the immediate extended by its sign, which is how the source
-- converts an `int32_t` where it meets a register.
pub mod Fits
pub mod Bytes
pub mod Low
pub mod Signed
use appclick_ubpf.Prelude.{ℕ, zero, suc, ◌+◌, ◌-◌, ◌*◌, ◌/◌, ◌%◌, ◌^◌, bit_and, bit_or, bit_xor}
use appclick_ubpf.Prelude.{◌==◌, if◌then◌else◌}
use appclick_ubpf.Words.{u32, u64, arsh32, arsh64}
use appclick_ubpf.Isa.{AluOp, add, sub, mul, div, or, and, lsh, rsh, modulo, xor, mov, arsh, Width}
use appclick_ubpf.Isa.{w32, w64}

-- `SHIFT_MASK_32_BIT` and `SHIFT_MASK_64_BIT`.
abbrev pub shift_mask_32 : ℕ → ℕ
shift_mask_32 x = bit_and x 0x1f

abbrev pub shift_mask_64 : ℕ → ℕ
shift_mask_64 x = bit_and x 0x3f

-- `EBPF_OP_ADD_IMM` to `EBPF_OP_ARSH_REG`.
unfoldable pub alu32 : AluOp → ℕ → ℕ → ℕ
unfolding arsh32
alu32 add d s = u32 (u64 (d + s))
alu32 sub d s = u32 (u64 (d + 2 ^ 64 - s))
alu32 mul d s = u32 (u64 (d * s))
alu32 div d s = u32 (if u32 s == 0 then 0 else u32 d / u32 s)
alu32 or d s = u32 (bit_or d s)
alu32 and d s = u32 (bit_and d s)
alu32 lsh d s = u32 (u32 d * 2 ^ shift_mask_32 s)
alu32 rsh d s = u32 (u32 d / 2 ^ shift_mask_32 s)
alu32 modulo d s = u32 (if u32 s == 0 then u32 d else u32 d % u32 s)
alu32 xor d s = u32 (bit_xor d s)
alu32 mov d s = u32 s
alu32 arsh d s = u32 (arsh32 (u32 d) (shift_mask_32 s))

-- `EBPF_OP_ADD64_IMM` to `EBPF_OP_ARSH64_REG`.
unfoldable pub alu64 : AluOp → ℕ → ℕ → ℕ
unfolding arsh64
alu64 add d s = u64 (d + s)
alu64 sub d s = u64 (d + 2 ^ 64 - s)
alu64 mul d s = u64 (d * s)
alu64 div d s = if s == 0 then 0 else d / s
alu64 or d s = bit_or d s
alu64 and d s = bit_and d s
alu64 lsh d s = u64 (d * 2 ^ shift_mask_64 s)
alu64 rsh d s = d / 2 ^ shift_mask_64 s
alu64 modulo d s = if s == 0 then d else d % s
alu64 xor d s = bit_xor d s
alu64 mov d s = s
alu64 arsh d s = arsh64 d (shift_mask_64 s)

abbrev pub alu_by : Width → AluOp → ℕ → ℕ → ℕ
alu_by w32 = alu32
alu_by w64 = alu64

-- `EBPF_OP_NEG` and `EBPF_OP_NEG64`.
unfoldable pub negate : Width → ℕ → ℕ
negate w32 d = u32 (u64 (2 ^ 64 - d))
negate w64 d = u64 (2 ^ 64 - d)

-- `htole16`, `htole32`, `htole64` on a little-endian host, by the immediate.
unfoldable pub to_le : ℕ → ℕ → ℕ
to_le imm d = if imm == 16 then d % 2 ^ 16 else if imm == 32 then d % 2 ^ 32 else d

-- The lowest `n` bytes in the opposite order.
unfoldable pub byte_swap : ℕ → ℕ → ℕ
byte_swap zero x = 0
byte_swap (suc n) x = x % 256 * 256 ^ n + byte_swap n (x / 256)

-- `htobe16`, `htobe32`, `htobe64` on a little-endian host, by the immediate.
unfoldable pub to_be : ℕ → ℕ → ℕ
unfolding byte_swap
to_be imm d =
    if imm == 16
    then byte_swap 2 (d % 2 ^ 16)
    else if imm == 32
    then byte_swap 4 (d % 2 ^ 32)
    else if imm == 64
    then byte_swap 8 d
    else d
