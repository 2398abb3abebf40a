-- ===== src/Prelude/Bits.antt =====
-- Laws of the bit operations, each from the recursion on binary digits that it stands for.
use Prim.Native.Nat.{ℕ, zero, suc, ◌+◌, ◌*◌, ◌/◌, ◌%◌, ◌^◌, ◌≤◌, ◌<◌, min, max, differ}
use Prim.Native.Nat.{bit_and, bit_or, bit_xor}
use Prim.Native.Nat.{bit_and-bitwise}
use mathlib.Core.Path.{◌≡◌, refl, ap, ◌∙◌, sym}
use appclick_ubpf.Prelude.Tests.{◌==◌, if◌then◌else◌}
use native.Mathlib.Nat.{le_refl, pow-suc, one-le-pow, mod-lt, mod-eq_of_lt}
use native.Mathlib.Nat.{div-add-mod, mul-add-mod_self_left}
use native.Mathlib.Omega.{arith}
use appclick_ubpf.Prelude.Digits.{
  bit_and_step, bit_or_step, bit_xor_step, differ-digit, differ_cancel,
}

-- The operation stays within the width of its arguments.
pub bit_xor-lt : (k a b : ℕ) → a < 2 ^ k → b < 2 ^ k → bit_xor a b < 2 ^ k
bit_xor-lt zero a b p q =
    let ea : a ≡ 0 = omega arith in let eb : b ≡ 0 = omega arith in rw (ea, eb) (omega arith)
bit_xor-lt (suc k) a b p q = omega (
  arith,
  bit_xor_step a b,
  pow-suc 2 k,
  differ-digit a b,
  bit_xor-lt k (a / 2) (b / 2) (omega (arith, pow-suc 2 k)) (omega (arith, pow-suc 2 k)),
)

-- The halves and the last digit of an exclusive or.
bit_xor-half : (a b : ℕ) → bit_xor a b / 2 ≡ bit_xor (a / 2) (b / 2)
bit_xor-half a b = omega (arith, bit_xor_step a b, differ-digit a b)

bit_xor-last : (a b : ℕ) → bit_xor a b % 2 ≡ differ (a % 2) (b % 2)
bit_xor-last a b = omega (arith, bit_xor_step a b, differ-digit a b)

-- Exclusive or with the same number twice gives the first number back.
pub bit_xor_cancel : (k a b : ℕ) → a < 2 ^ k → b < 2 ^ k → bit_xor (bit_xor a b) b ≡ a
bit_xor_cancel zero a b p q =
    let ea : a ≡ 0 = omega arith in let eb : b ≡ 0 = omega arith in rw (ea, eb) refl
bit_xor_cancel (suc k) a b p q =
    let ih : bit_xor (bit_xor (a / 2) (b / 2)) (b / 2) ≡ a / 2 =
      bit_xor_cancel k (a / 2) (b / 2) (omega (arith, pow-suc 2 k)) (omega (arith, pow-suc 2 k)) in
    let digit : differ (differ (a % 2) (b % 2)) (b % 2) ≡ a % 2 =
      differ_cancel (a % 2) (b % 2) (omega arith) (omega arith) in
    rw (bit_xor_step (bit_xor a b) b, bit_xor-half a b, bit_xor-last a b, ih, digit) (omega arith)

-- The digit of weight `2 ^ k`.
pub bit : ℕ → ℕ → ℕ
bit a zero = a % 2
bit a (suc k) = bit (a / 2) k

pub bit-lt : (a k : ℕ) → bit a k < 2
unfolding bit
bit-lt a zero = omega arith
bit-lt a (suc k) = bit-lt (a / 2) k

pub bit-bit_and : (a b k : ℕ) → bit (bit_and a b) k ≡ min (bit a k) (bit b k)
unfolding bit
bit-bit_and a b zero = omega (arith, bit_and_step a b)
bit-bit_and a b (suc k) =
    let half : bit_and a b / 2 ≡ bit_and (a / 2) (b / 2) = omega (arith, bit_and_step a b) in
    rw half (bit-bit_and (a / 2) (b / 2) k)

pub bit-bit_or : (a b k : ℕ) → bit (bit_or a b) k ≡ max (bit a k) (bit b k)
unfolding bit
bit-bit_or a b zero = omega (arith, bit_or_step a b)
bit-bit_or a b (suc k) =
    let half : bit_or a b / 2 ≡ bit_or (a / 2) (b / 2) = omega (arith, bit_or_step a b) in
    rw half (bit-bit_or (a / 2) (b / 2) k)

pub bit-pow : (r k : ℕ) → bit (2 ^ r) k ≡ (if r == k then 1 else 0)
unfolding bit
bit-pow zero zero = ground arith
bit-pow zero (suc k) = ground (arith, bit-zero k)
  where
    bit-zero : (j : ℕ) → bit 0 j ≡ 0
    bit-zero zero = refl
    bit-zero (suc j) = bit-zero j
bit-pow (suc r) zero = ground (arith, pow-suc 2 r)
bit-pow (suc r) (suc k) =
    let half : 2 ^ suc r / 2 ≡ 2 ^ r = omega (arith, pow-suc 2 r) in
    rw half (ground (arith, bit-pow r k))

-- A number that has no digit left has none in common with another.
bit_and-zero_below : (n a : ℕ) → a ≤ n → bit_and a 0 ≡ 0
bit_and-zero_below n zero h = refl
bit_and-zero_below zero (suc a) h = absurd (omega arith)
bit_and-zero_below (suc n) (suc a) h =
    omega (arith, bit_and_step (suc a) 0, bit_and-zero_below n (suc a / 2) (omega arith))

pub bit_and-zero : (a : ℕ) → bit_and a 0 ≡ 0
bit_and-zero a = bit_and-zero_below a a (le_refl a)

-- A mask of one bit tests that bit.
pub bit_and-pow : (a r : ℕ) → bit_and a (2 ^ r) ≡ bit a r * 2 ^ r
unfolding bit
bit_and-pow a zero = omega (arith, bit_and_step a 1, bit_and-zero (a / 2))
bit_and-pow a (suc r) =
    let half : 2 ^ suc r / 2 ≡ 2 ^ r = omega (arith, pow-suc 2 r) in
    rw (bit_and_step a (2 ^ suc r), half, bit_and-pow (a / 2) r)
      (omega (arith, pow-suc 2 r, ap (λ (t : ℕ). bit (a / 2) r * t) (pow-suc 2 r)))

differ_swap : (x y z : ℕ) → x < 2 → y < 2 → z < 2 → differ (differ x y) z ≡ differ (differ x z) y
differ_swap zero zero zero p q r = refl
differ_swap zero zero (suc zero) p q r = refl
differ_swap zero (suc zero) zero p q r = refl
differ_swap zero (suc zero) (suc zero) p q r = refl
differ_swap (suc zero) zero zero p q r = refl
differ_swap (suc zero) zero (suc zero) p q r = refl
differ_swap (suc zero) (suc zero) zero p q r = refl
differ_swap (suc zero) (suc zero) (suc zero) p q r = refl
differ_swap (suc (suc x)) y z p q r = absurd (omega arith)
differ_swap zero (suc (suc y)) z p q r = absurd (omega arith)
differ_swap (suc zero) (suc (suc y)) z p q r = absurd (omega arith)
differ_swap zero zero (suc (suc z)) p q r = absurd (omega arith)
differ_swap zero (suc zero) (suc (suc z)) p q r = absurd (omega arith)
differ_swap (suc zero) zero (suc (suc z)) p q r = absurd (omega arith)
differ_swap (suc zero) (suc zero) (suc (suc z)) p q r = absurd (omega arith)

-- The order of two exclusive ors does not matter.
pub bit_xor_swap :
    (k a b c : ℕ)
    → a < 2 ^ k
    → b < 2 ^ k
    → c < 2 ^ k
    → bit_xor (bit_xor a b) c ≡ bit_xor (bit_xor a c) b
bit_xor_swap zero a b c p q r =
    let ea : a ≡ 0 = omega arith in
    let eb : b ≡ 0 = omega arith in let ec : c ≡ 0 = omega arith in rw (ea, eb, ec) refl
bit_xor_swap (suc k) a b c p q r =
    let ih =
      bit_xor_swap k (a / 2) (b / 2) (c / 2) (omega (arith, pow-suc 2 k))
        (omega (arith, pow-suc 2 k)) (omega (arith, pow-suc 2 k)) in
    let digit = differ_swap (a % 2) (b % 2) (c % 2) (omega arith) (omega arith) (omega arith) in
    rw
      (
        bit_xor_step (bit_xor a b) c,
        bit_xor_step (bit_xor a c) b,
        bit_xor-half a b,
        bit_xor-half a c,
        bit_xor-last a b,
        bit_xor-last a c,
        ih,
        digit,
      )
      refl

pub bit_or-lt : (k a b : ℕ) → a < 2 ^ k → b < 2 ^ k → bit_or a b < 2 ^ k
bit_or-lt zero a b p q =
    let ea : a ≡ 0 = omega arith in let eb : b ≡ 0 = omega arith in rw (ea, eb) (omega arith)
bit_or-lt (suc k) a b p q = omega (
  arith,
  bit_or_step a b,
  pow-suc 2 k,
  bit_or-lt k (a / 2) (b / 2) (omega (arith, pow-suc 2 k)) (omega (arith, pow-suc 2 k)),
)

-- A mask makes no number greater.
pub bit_and-le : (n a b : ℕ) → a ≤ n → bit_and a b ≤ a
bit_and-le n zero b h = rw (bit_and-bitwise 0 b) (omega arith)
bit_and-le zero (suc a) b h = absurd (omega arith)
bit_and-le (suc n) (suc a) b h =
    omega (arith, bit_and_step (suc a) b, bit_and-le n (suc a / 2) (b / 2) (omega arith))

pub bit_and-lt : (k a b : ℕ) → a < 2 ^ k → b < 2 ^ k → bit_and a b < 2 ^ k
bit_and-lt k a b p q = omega (arith, bit_and-le a a b (le_refl a))

-- The lowest `k + 1` digits are the last one, and the lowest `k` of the half.
mod-pow-suc : (v k : ℕ) → v % 2 ^ suc k ≡ v % 2 + v / 2 % 2 ^ k * 2
mod-pow-suc v k =
    let p = 2 ^ k in
    let pos : 0 < p = one-le-pow k 2 (omega arith) in
    let split : v ≡ p * 2 * (v / 2 / p) + (v % 2 + v / 2 % p * 2) =
      omega (arith, div-add-mod (v / 2) p, ap (λ (t : ℕ). 2 * t) (div-add-mod (v / 2) p)) in
    let small : v % 2 + v / 2 % p * 2 < p * 2 = omega (arith, mod-lt (v / 2) pos) in
    rw (pow-suc 2 k) (
      ap (λ t. t % (p * 2)) split
      ∙ mul-add-mod_self_left (p * 2) (v / 2 / p) (v % 2 + v / 2 % p * 2)
      ∙ mod-eq_of_lt small)

-- An operation on digits gives in the lowest `k` places what the lowest `k` places give.
module _ (op digit : ℕ → ℕ → ℕ)
    (step : (a b : ℕ) → op a b ≡ 2 * op (a / 2) (b / 2) + digit (a % 2) (b % 2))
    (small : (a b : ℕ) → digit (a % 2) (b % 2) < 2) where
  op-low : (k a b : ℕ) → op (a % 2 ^ k) (b % 2 ^ k) % 2 ^ k ≡ op a b % 2 ^ k
  op-low zero a b = omega arith
  op-low (suc k) a b =
      let a' = a % 2 ^ suc k in
      let b' = b % 2 ^ suc k in
      let half_a : a' / 2 ≡ a / 2 % 2 ^ k = omega (arith, mod-pow-suc a k) in
      let half_b : b' / 2 ≡ b / 2 % 2 ^ k = omega (arith, mod-pow-suc b k) in
      let last_a : a' % 2 ≡ a % 2 = omega (arith, mod-pow-suc a k) in
      let last_b : b' % 2 ≡ b % 2 = omega (arith, mod-pow-suc b k) in
      let half' : op a' b' / 2 ≡ op (a / 2 % 2 ^ k) (b / 2 % 2 ^ k) =
        rw (← half_a, ← half_b) (omega (arith, step a' b', small a' b')) in
      let half : op a b / 2 ≡ op (a / 2) (b / 2) = omega (arith, step a b, small a b) in
      let last : op a' b' % 2 ≡ op a b % 2 =
        rw (step a' b', step a b, last_a, last_b) (omega (arith, small a b)) in
      mod-pow-suc (op a' b') k
      ∙ rw (half', last, op-low k (a / 2) (b / 2), ← half) refl
      ∙ sym (mod-pow-suc (op a b) k)

pub bit_and-low : (k a b : ℕ) → bit_and (a % 2 ^ k) (b % 2 ^ k) % 2 ^ k ≡ bit_and a b % 2 ^ k
bit_and-low = op-low bit_and min bit_and_step (λ a b. omega arith)

pub bit_or-low : (k a b : ℕ) → bit_or (a % 2 ^ k) (b % 2 ^ k) % 2 ^ k ≡ bit_or a b % 2 ^ k
bit_or-low = op-low bit_or max bit_or_step (λ a b. omega arith)

pub bit_xor-low : (k a b : ℕ) → bit_xor (a % 2 ^ k) (b % 2 ^ k) % 2 ^ k ≡ bit_xor a b % 2 ^ k
bit_xor-low = op-low bit_xor differ bit_xor_step differ-digit

-- The masks of the shift counts.
pub bit_and-mask_5 : (a : ℕ) → bit_and a 0x1f ≡ a % 32
bit_and-mask_5 a = omega (
  arith,
  bit_and_step a 31,
  bit_and_step (a / 2) 15,
  bit_and_step (a / 2 / 2) 7,
  bit_and_step (a / 2 / 2 / 2) 3,
  bit_and_step (a / 2 / 2 / 2 / 2) 1,
  bit_and-zero (a / 2 / 2 / 2 / 2 / 2),
)

-- A mask of one bit leaves 0 exactly where the bit is 0.
pub test_bit : (a r : ℕ) → (bit_and a (2 ^ r) == 0) ≡ (bit a r == 0)
test_bit a r =
    let power : 0 < 2 ^ r = one-le-pow r 2 (omega arith) in
    split (bit a r) (bit-lt a r) (bit_and-pow a r) power
  where
    split :
        (b : ℕ)
        → b < 2
        → bit_and a (2 ^ r) ≡ b * 2 ^ r
        → 0 < 2 ^ r
        → (bit_and a (2 ^ r) == 0) ≡ (b == 0)
    split zero h e p = ground arith
    split (suc zero) h e p = ground arith
    split (suc (suc b)) h e p = absurd (omega arith)
