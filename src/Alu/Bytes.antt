-- ===== src/Alu/Bytes.antt =====
-- The byte order conversions.
use appclick_ubpf.Prelude.{ℕ, ◌%◌, ◌^◌, ◌<◌, ◌≡◌, ◌⊎◌, arith}
use appclick_ubpf.Alu.{to_le, to_be, byte_swap}

swap_two : (x : ℕ) → x < 2 ^ 16 → byte_swap 2 (byte_swap 2 x % 2 ^ 16) ≡ x
unfolding byte_swap
swap_two x h = omega arith

swap_four : (x : ℕ) → x < 2 ^ 32 → byte_swap 4 (byte_swap 4 x % 2 ^ 32) ≡ x
unfolding byte_swap
swap_four x h = omega arith

swap_eight : (x : ℕ) → x < 2 ^ 64 → byte_swap 8 (byte_swap 8 x) ≡ x
unfolding byte_swap
swap_eight x h = omega arith

-- Converting a 64-bit register to big-endian twice, by an immediate of 16, 32 or 64, cuts it to
-- that width, as converting to little-endian does.
pub to_be-to_be :
    (imm d : ℕ)
    → (imm ≡ 16) ⊎ ((imm ≡ 32) ⊎ (imm ≡ 64))
    → d < 2 ^ 64
    → to_be imm (to_be imm d) ≡ to_le imm d
unfolding to_be to_le
to_be-to_be imm d width h =
    ground (arith, swap_two (d % 2 ^ 16), swap_four (d % 2 ^ 32), swap_eight d)
