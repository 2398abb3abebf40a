-- ===== src/Alu/Signed.antt =====
-- The right shifts of signed values.
use native.Mathlib.Nat.{div-le_self}
use appclick_ubpf.Prelude.{ℕ, ◌-◌, ◌/◌, ◌^◌, ◌<◌, ◌≡◌, arith}
use appclick_ubpf.Words.{ℤ, pos, negsuc, signed32, signed64, u32, arsh32, arsh64}
use appclick_ubpf.Isa.{arsh}
use appclick_ubpf.Alu.{alu32, alu64, shift_mask_32, shift_mask_64}

-- z / 2 ^ k rounded down: -(n + 1) goes to -(n / 2 ^ k + 1).
abbrev pub floor_div : ℤ → ℕ → ℤ
floor_div (pos n) d = pos (n / d)
floor_div (negsuc n) d = negsuc (n / d)

-- A 64-bit right shift of a signed 64-bit register divides the value that it stands for by a power
-- of two, rounded down; the power is what the count leaves in its lowest six bits. A 32-bit shift
-- does so with the lower half, and five bits.
pub arsh-floor_div :
    (d s : ℕ)
    → d < 2 ^ 64
    → (signed64 (alu64 arsh d s) ≡ floor_div (signed64 d) (2 ^ shift_mask_64 s))
      × (signed32 (alu32 arsh d s) ≡ floor_div (signed32 (u32 d)) (2 ^ shift_mask_32 s))
unfolding alu64 alu32 arsh64 arsh32
arsh-floor_div d s h = (
  ground (
    arith,
    div-le_self d (2 ^ shift_mask_64 s),
    div-le_self (2 ^ 64 - 1 - d) (2 ^ shift_mask_64 s),
  ),
  ground (
    arith,
    div-le_self (u32 d) (2 ^ shift_mask_32 s),
    div-le_self (2 ^ 32 - 1 - u32 d) (2 ^ shift_mask_32 s),
  ),
)
