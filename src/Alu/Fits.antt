-- ===== src/Alu/Fits.antt =====
-- Registers hold 64-bit numbers, and the 32-bit operations clear the upper half.
use native.Mathlib.Nat.{div-le_self, mod-le, pow-suc, mul-le-mul_right}
use appclick_ubpf.Prelude.{ℕ, zero, suc, ◌/◌, ◌%◌, ◌^◌, ◌<◌, arith}
use appclick_ubpf.Prelude.Bits.{bit_xor-lt, bit_or-lt, bit_and-lt}
use appclick_ubpf.Words.{arsh64}
use appclick_ubpf.Isa.{AluOp, add, sub, mul, div, or, and, lsh, rsh, modulo, xor, mov, arsh, Width}
use appclick_ubpf.Isa.{w32, w64}
use appclick_ubpf.Alu.{alu32, alu64, negate, to_le, to_be, byte_swap, shift_mask_64}

pub byte_swap-lt : (n x : ℕ) → byte_swap n x < 256 ^ n
unfolding byte_swap
byte_swap-lt zero x = omega arith
byte_swap-lt (suc n) x = omega (
  arith,
  byte_swap-lt n (x / 256),
  pow-suc 256 n,
  mul-le-mul_right {m = x % 256} {n = 255} (256 ^ n) (omega arith),
)

pub alu32-lt : (o : AluOp) (d s : ℕ) → alu32 o d s < 2 ^ 32
unfolding alu32
alu32-lt add d s = omega arith
alu32-lt sub d s = omega arith
alu32-lt _ d s = omega arith

pub alu64-lt : (o : AluOp) (d s : ℕ) → d < 2 ^ 64 → s < 2 ^ 64 → alu64 o d s < 2 ^ 64
unfolding alu64 arsh64
alu64-lt add d s hd hs = omega arith
alu64-lt sub d s hd hs = omega arith
alu64-lt mul d s hd hs = omega arith
alu64-lt div d s hd hs = ground (arith, div-le_self d s)
alu64-lt or d s hd hs = bit_or-lt 64 d s hd hs
alu64-lt and d s hd hs = bit_and-lt 64 d s hd hs
alu64-lt lsh d s hd hs = omega arith
alu64-lt rsh d s hd hs = omega (arith, div-le_self d (2 ^ shift_mask_64 s))
alu64-lt modulo d s hd hs = ground (arith, mod-le d s)
alu64-lt xor d s hd hs = bit_xor-lt 64 d s hd hs
alu64-lt mov d s hd hs = hs
alu64-lt arsh d s hd hs = ground (arith, div-le_self d (2 ^ shift_mask_64 s))

pub negate-lt : (w : Width) (d : ℕ) → negate w d < 2 ^ 64
unfolding negate
negate-lt w32 d = omega arith
negate-lt w64 d = omega arith

pub to_le-lt : (imm d : ℕ) → d < 2 ^ 64 → to_le imm d < 2 ^ 64
unfolding to_le
to_le-lt imm d h = ground arith

pub to_be-lt : (imm d : ℕ) → d < 2 ^ 64 → to_be imm d < 2 ^ 64
unfolding to_be
to_be-lt imm d h =
    ground (arith, byte_swap-lt 2 (d % 2 ^ 16), byte_swap-lt 4 (d % 2 ^ 32), byte_swap-lt 8 d)
