-- ===== src/Prelude/Digits.antt =====
-- The bit operations digit by digit.
use Prim.Native.Nat.{ℕ, zero, suc, ◌+◌, ◌*◌, ◌/◌, ◌%◌, ◌≤◌, ◌<◌, min, max, differ}
use Prim.Native.Nat.{bit_and, bit_or, bit_xor, digits, bitwise}
use Prim.Native.Nat.{bit_and-bitwise, bit_or-bitwise, bit_xor-bitwise}
use mathlib.Core.Path.{◌≡◌, refl}
use native.Mathlib.Nat.{le_refl}
use native.Mathlib.Omega.{arith}

-- An operation that acts on binary digits one by one: `alone` is the operation on 0 and a number,
-- which must agree with the digits.
module _ (alone : ℕ → ℕ) (digit : ℕ → ℕ → ℕ) where
  -- Fuel beyond the first number makes no difference.
  spare_fuel :
      (a : ℕ) {n m : ℕ} (b : ℕ)
      → a ≤ m
      → a ≤ n
      → digits alone digit m a b ≡ digits alone digit n a b
  spare_fuel zero {n = zero} {m = zero} b _ _ = refl
  spare_fuel zero {n = zero} {m = suc m} b _ _ = refl
  spare_fuel zero {n = suc n} {m = zero} b _ _ = refl
  spare_fuel zero {n = suc n} {m = suc m} b _ _ = refl
  spare_fuel (suc a) {n = zero} b _ short = absurd (omega (arith, short))
  spare_fuel (suc a) {n = suc n} {m = zero} b short _ = absurd (omega (arith, short))
  spare_fuel (suc a) {n = suc n} {m = suc m} b enough enough' =
      let half : suc a / 2 ≤ m = omega (arith, enough) in
      let half' : suc a / 2 ≤ n = omega (arith, enough') in
      rw (spare_fuel (suc a / 2) {n = n} {m = m} (b / 2) half half')

  digit_step :
      ((b : ℕ) → alone b ≡ alone (b / 2) * 2 + digit 0 (b % 2))
      → (a b : ℕ)
      → bitwise alone digit a b ≡ bitwise alone digit (a / 2) (b / 2) * 2 + digit (a % 2) (b % 2)
  digit_step agrees zero b = agrees b
  digit_step agrees (suc a) b =
      let half : suc a / 2 ≤ a = omega arith in
      let same = spare_fuel (suc a / 2) {n = suc a / 2} {m = a} (b / 2) half (le_refl _) in
      omega (arith, same)

-- One binary digit of each operation.
pub bit_and_step : (x y : ℕ) → bit_and x y ≡ 2 * bit_and (x / 2) (y / 2) + min (x % 2) (y % 2)
bit_and_step x y =
    simp bit_and-bitwise (omega (arith, digit_step (λ _. 0) min (λ b. omega arith) x y))

pub bit_or_step : (x y : ℕ) → bit_or x y ≡ 2 * bit_or (x / 2) (y / 2) + max (x % 2) (y % 2)
bit_or_step x y =
    simp bit_or-bitwise (omega (arith, digit_step (λ b. b) max (λ b. omega arith) x y))

pub bit_xor_step : (x y : ℕ) → bit_xor x y ≡ 2 * bit_xor (x / 2) (y / 2) + differ (x % 2) (y % 2)
bit_xor_step x y = simp bit_xor-bitwise (omega (arith, digit_step (λ b. b) differ differ_zero x y))
  where
    differ_zero : (b : ℕ) → b ≡ b / 2 * 2 + differ 0 (b % 2)
    differ_zero b = omega arith

pub differ-digit : (a b : ℕ) → differ (a % 2) (b % 2) < 2
differ-digit a b = step (a % 2) (b % 2) (omega arith) (omega arith)
  where
    step : (x y : ℕ) → x < 2 → y < 2 → differ x y < 2
    step zero y p q = q
    step (suc x) zero p q = p
    step (suc zero) (suc zero) p q = omega arith
    step (suc zero) (suc (suc y)) p q = absurd (omega arith)
    step (suc (suc x)) (suc y) p q = absurd (omega arith)

pub differ_cancel : (x y : ℕ) → x < 2 → y < 2 → differ (differ x y) y ≡ x
differ_cancel zero zero p q = refl
differ_cancel zero (suc zero) p q = refl
differ_cancel zero (suc (suc y)) p q = absurd (omega arith)
differ_cancel (suc zero) zero p q = refl
differ_cancel (suc zero) (suc zero) p q = refl
differ_cancel (suc zero) (suc (suc y)) p q = absurd (omega arith)
differ_cancel (suc (suc x)) y p q = absurd (omega arith)
