-- ===== src/Alu/Low.antt =====
-- The 32-bit operations read the lower halves of their operands only.
use native.Mathlib.Nat.{div-add-mod, mul-add-mod_self_left}
use appclick_ubpf.Prelude.{ℕ, ◌+◌, ◌*◌, ◌/◌, ◌%◌, ◌^◌, ◌<◌, ◌≡◌, sym, ap, ◌∙◌}
use appclick_ubpf.Prelude.{arith}
use appclick_ubpf.Prelude.Bits.{bit_and-low, bit_or-low, bit_xor-low, bit_and-mask_5}
use appclick_ubpf.Words.{u32}
use appclick_ubpf.Isa.{AluOp, add, sub, mul, div, or, and, lsh, rsh, modulo, xor, mov, arsh}
use appclick_ubpf.Alu.{alu32, shift_mask_32}

u32_twice : (x : ℕ) → u32 (u32 x) ≡ u32 x
u32_twice x = omega arith

-- A shift count is read from the lowest five bits.
shift_mask_32-u32 : (s : ℕ) → shift_mask_32 (u32 s) ≡ shift_mask_32 s
shift_mask_32-u32 s = omega (arith, bit_and-mask_5 s, bit_and-mask_5 (u32 s))

mul-mod : (d s n : ℕ) → d % n * (s % n) % n ≡ d * s % n
mul-mod d s n =
    let q = d / n in
    let r = d % n in
    let q' = s / n in
    let r' = s % n in
    let split : d * s ≡ n * (q * s + r * q') + r * r' = omega (
      arith,
      ap (λ (t : ℕ). t * s) (div-add-mod d n),
      ap (λ (t : ℕ). d % n * t) (div-add-mod s n),
    ) in
    sym (ap (λ t. t % n) split ∙ mul-add-mod_self_left n (q * s + r * q') (r * r'))

-- A 32-bit operation gives the same result for any two 64-bit registers with the same lower
-- halves: the upper halves of the operands do not matter.
pub alu32_low :
    (o : AluOp) (d s : ℕ) → d < 2 ^ 64 → s < 2 ^ 64 → alu32 o (u32 d) (u32 s) ≡ alu32 o d s
unfolding alu32
alu32_low add d s hd hs = omega arith
alu32_low sub d s hd hs = omega arith
alu32_low mul d s hd hs = omega (arith, mul-mod d s (2 ^ 32))
alu32_low div d s hd hs = rw (u32_twice d, u32_twice s)
alu32_low or d s hd hs = bit_or-low 32 d s
alu32_low and d s hd hs = bit_and-low 32 d s
alu32_low lsh d s hd hs = rw (u32_twice d, shift_mask_32-u32 s)
alu32_low rsh d s hd hs = rw (u32_twice d, shift_mask_32-u32 s)
alu32_low modulo d s hd hs = rw (u32_twice d, u32_twice s)
alu32_low xor d s hd hs = bit_xor-low 32 d s
alu32_low mov d s hd hs = omega arith
alu32_low arsh d s hd hs = rw (u32_twice d, shift_mask_32-u32 s)
