-- ===== src/Memory/Laws.antt =====
-- Loads and stores of libs/ubpf/vm/ubpf_vm.c: what is read back, and what stays.
use native.Mathlib.Nat.{
  mul-add-mod_self_left, mod-eq_of_lt, div-add-mod, pow-suc, one-le-pow, mod-lt,
}
use appclick_ubpf.Prelude.{ℕ, zero, suc, ◌+◌, ◌*◌, ◌/◌, ◌%◌, ◌^◌, ◌≤◌, ◌<◌, ◌≡◌, refl, ap, ◌∙◌}
use appclick_ubpf.Prelude.{◌⊎◌, inl, inr, some, arith}
use appclick_ubpf.Prelude.{◌==◌, update, Bool-cases, Option-cases}
use appclick_ubpf.Memory.{Memory, read_bytes, write_bytes}
use appclick_ubpf.Memory.{mem_load, mem_store}

-- The sizes of an access.
pub data IsSize : ℕ → Type 0 where
  one : IsSize 1
  two : IsSize 2
  four : IsSize 4
  eight : IsSize 8

pub mem_load-read_bytes :
    (m : Memory) (a : ℕ) {n : ℕ} → IsSize n → mem_load m a n ≡ read_bytes m a n
unfolding mem_load
mem_load-read_bytes m a one = ground arith
mem_load-read_bytes m a two = ground arith
mem_load-read_bytes m a four = ground arith
mem_load-read_bytes m a eight = ground arith

pub mem_store-write_bytes :
    (m : Memory) (a v : ℕ) {n : ℕ} → IsSize n → mem_store m a v n ≡ write_bytes m a v n
unfolding mem_store
mem_store-write_bytes m a v one = ground arith
mem_store-write_bytes m a v two = ground arith
mem_store-write_bytes m a v four = ground arith
mem_store-write_bytes m a v eight = ground arith

-- Every address of the range holds a byte.
abbrev pub IsMapped : Memory → ℕ → ℕ → Type 0
IsMapped m a n = (x : ℕ) → a ≤ x → x < a + n → (b : ℕ) × (m x ≡ some b)

-- A mapped address holds a byte's value.
abbrev pub IsBytes : Memory → Type 0
IsBytes m = (x b : ℕ) → m x ≡ some b → b < 256

pub read_bytes_mapped :
    (m : Memory) (a n : ℕ) → IsMapped m a n → (v : ℕ) × (read_bytes m a n ≡ some v)
unfolding read_bytes
read_bytes_mapped m a zero h = (0, refl)
read_bytes_mapped m a (suc n) h =
    let (b, e) = h a (omega arith) (omega arith) in
    let (v, r) = read_bytes_mapped m (a + 1) n (λ x p q. h x (omega arith) (omega arith)) in
    (b + v * 256, rw (e, r))

pub write_bytes_mapped :
    (m : Memory) (a v n : ℕ) → IsMapped m a n → (m' : Memory) × (write_bytes m a v n ≡ some m')
unfolding write_bytes
write_bytes_mapped m a v zero h = (m, refl)
write_bytes_mapped m a v (suc n) h =
    let (b, e) = h a (omega arith) (omega arith) in
    let (m', r) =
      write_bytes_mapped (update m a (some (v % 256))) (a + 1) (v / 256) n
        (λ x p q. ground (arith, h x)) in
    (m', rw e r)

pub write_bytes_outside :
    (m : Memory) (a v n : ℕ) (m' : Memory)
    → write_bytes m a v n ≡ some m'
    → (x : ℕ) → (x < a) ⊎ (a + n ≤ x)
    → m' x ≡ m x
unfolding write_bytes
write_bytes_outside m a v zero m' e x o = ground arith
write_bytes_outside m a v (suc n) m' e x o = elim (Option-cases (m a)) [
  | inl h ↦ ground arith
  | inr (b, h) ↦ ground (
    arith,
    write_bytes_outside (update m a (some (v % 256))) (a + 1) (v / 256) n m' (rw h at e) x,
  )
]

mod-step : (v p : ℕ) → 0 < p → v % (p * 256) ≡ v % 256 + v / 256 % p * 256
mod-step v p h =
    let split : v ≡ p * 256 * (v / 256 / p) + (v % 256 + v / 256 % p * 256) =
      omega (arith, div-add-mod (v / 256) p, ap (λ (t : ℕ). 256 * t) (div-add-mod (v / 256) p)) in
    let small : v % 256 + v / 256 % p * 256 < p * 256 = omega (arith, mod-lt (v / 256) h) in
    ap (λ t. t % (p * 256)) split
    ∙ mul-add-mod_self_left (p * 256) (v / 256 / p) (v % 256 + v / 256 % p * 256)
    ∙ mod-eq_of_lt small

pub read_bytes-write_bytes :
    (m : Memory) (a v n : ℕ) (m' : Memory)
    → write_bytes m a v n ≡ some m'
    → read_bytes m' a n ≡ some (v % 256 ^ n)
unfolding write_bytes read_bytes
read_bytes-write_bytes m a v zero m' e = let nothing : v % 256 ^ 0 ≡ 0 = omega arith in rw nothing
read_bytes-write_bytes m a v (suc n) m' e = elim (Option-cases (m a)) [
  | inl h ↦ ground arith
  | inr (b, h) ↦
      let e' = rw h at e in
      let low : m' a ≡ some (v % 256) =
        ground
          (arith, write_bytes_outside (update m a (some (v % 256))) (a + 1) (v / 256) n m' e' a) in
      let high = read_bytes-write_bytes (update m a (some (v % 256))) (a + 1) (v / 256) n m' e' in
      rw (low, high, pow-suc 256 n, mod-step v (256 ^ n) (one-le-pow n 256 (omega arith)))
]

pub read_bytes_bound :
    (m : Memory) (a n v : ℕ) → IsBytes m → read_bytes m a n ≡ some v → v < 256 ^ n
unfolding read_bytes
read_bytes_bound m a zero v h e = ground arith
read_bytes_bound m a (suc n) v h e = elim (Option-cases (m a)) [
  | inl none_at ↦ ground arith
  | inr (b, at) ↦ elim (Option-cases (read_bytes m (a + 1) n)) [
    | inl no_rest ↦ ground arith
    | inr (w, rest) ↦ ground (arith, h a b, read_bytes_bound m (a + 1) n w h rest, pow-suc 256 n)
  ]
]

pub write_bytes-IsBytes :
    (m : Memory) (a v n : ℕ) (m' : Memory) → write_bytes m a v n ≡ some m' → IsBytes m → IsBytes m'
unfolding write_bytes
write_bytes-IsBytes m a v zero m' e h x b at = ground (arith, h x b)
write_bytes-IsBytes m a v (suc n) m' e h x b at = elim (Option-cases (m a)) [
  | inl none_at ↦ ground arith
  | inr (c, here) ↦
      write_bytes-IsBytes (update m a (some (v % 256))) (a + 1) (v / 256) n m' (rw here at e)
        (λ y d eq. ground (arith, h y d)) x b at
]

pub write_bytes-IsMapped :
    (m : Memory) (a v n : ℕ) (m' : Memory)
    → write_bytes m a v n ≡ some m'
    → (x b : ℕ) → m x ≡ some b
    → (c : ℕ) × (m' x ≡ some c)
unfolding write_bytes
write_bytes-IsMapped m a v zero m' e x b at = (b, ground arith)
write_bytes-IsMapped m a v (suc n) m' e x b at = elim (Option-cases (m a)) [
  | inl none_at ↦ ground arith
  | inr (c, here) ↦
      let still : (d : ℕ) × (update m a (some (v % 256)) x ≡ some d) = elim (Bool-cases (a == x)) [
        | inl same ↦ (v % 256, ground arith)
        | inr other ↦ (b, ground arith)
      ] in
      write_bytes-IsMapped (update m a (some (v % 256))) (a + 1) (v / 256) n m' (rw here at e) x
        still.0 still.1
]

-- What a store of 1, 2, 4 or 8 bytes writes, a load of the same size and address reads back: the
-- value's lowest bytes. Every byte outside the range is as before. Aligned or not makes no
-- difference.
pub mem_load-mem_store :
    (m : Memory) (a v : ℕ) {n : ℕ} (m' : Memory)
    → IsSize n
    → mem_store m a v n ≡ some m'
    → (mem_load m' a n ≡ some (v % 256 ^ n)) × ((x : ℕ) → (x < a) ⊎ (a + n ≤ x) → m' x ≡ m x)
mem_load-mem_store m a v {n} m' z e =
    let e' = rw (mem_store-write_bytes m a v z) at e in
    (
      mem_load-read_bytes m' a z ∙ read_bytes-write_bytes m a v n m' e',
      write_bytes_outside m a v n m' e',
    )
