-- ===== src/Shadow/Stack.antt =====
-- The shadow stack remembers exactly the bytes that were written.
use appclick_ubpf.Prelude.{
  ℕ, zero, suc, ◌+◌, ◌-◌, ◌/◌, ◌%◌, ◌^◌, ◌≤◌, ◌<◌, ◌≡◌, refl, ◌⊎◌, inl, inr, ◌↔◌,
}
use appclick_ubpf.Prelude.{bit_and, bit_or, true, false, ◌&&◌, arith, Bool-cases}
use appclick_ubpf.Prelude.{◌==◌, ltb, leb, if◌then◌else◌, update, ==_iff}
use appclick_ubpf.Prelude.Bits.{bit, bit-lt, bit-bit_or, bit-pow, test_bit}
use appclick_ubpf.Words.{u64}
use appclick_ubpf.Vm.{Vm}
use appclick_ubpf.Bounds.{Regions, is_within}
use appclick_ubpf.Bounds.Laws.{IsRegion, Inside}
use appclick_ubpf.Shadow.{ShadowStack, mark_bits, check_bits, mark_shadow_stack, check_shadow_stack}

-- The bit for the byte at offset `i` of the stack.
abbrev pub marked : ShadowStack → ℕ → ℕ
marked shadow i = bit (shadow (i / 8)) (i % 8)

-- One write sets its bit and no other.
mark_one :
    (shadow : ShadowStack) (t i : ℕ)
    → marked (update shadow (t / 8) (bit_or (shadow (t / 8)) (2 ^ (t % 8)))) i
      ≡ (if t == i then 1 else marked shadow i)
mark_one shadow t i = elim (Bool-cases (t / 8 == i / 8)) [
  | inr other ↦ rw other (ground arith)
  | inl same ↦
      let same_byte : t / 8 ≡ i / 8 = (==_iff _ _).0 same in
      rw
        (
          same,
          same_byte,
          bit-bit_or (shadow (i / 8)) (2 ^ (t % 8)) (i % 8),
          bit-pow (t % 8) (i % 8),
        )
        (elim (Bool-cases (t % 8 == i % 8)) [
          | inl same_bit ↦
              let here : (t == i) ≡ true = ground arith in
              rw (same_bit, here) (omega (arith, bit-lt (shadow (i / 8)) (i % 8)))
          | inr other_bit ↦
              let elsewhere : (t == i) ≡ false = ground arith in
              rw (other_bit, elsewhere) (omega arith)
        ])
]

-- `mark_bits` sets the bits of its range and no other.
pub marked-mark_bits :
    (n t i : ℕ) (shadow : ShadowStack)
    → marked (mark_bits shadow t n) i ≡ (if leb t i && ltb i (t + n) then 1 else marked shadow i)
unfolding mark_bits
marked-mark_bits zero t i shadow = ground arith
marked-mark_bits (suc n) t i shadow = ground (
  arith,
  marked-mark_bits n (t + 1) i (update shadow (t / 8) (bit_or (shadow (t / 8)) (2 ^ (t % 8)))),
  mark_one shadow t i,
)

-- `check_bits` asks for every bit of its range.
pub check_bits_iff :
    (n t : ℕ) (shadow : ShadowStack)
    → (check_bits shadow t n ≡ true) ↔ ((i : ℕ) → t ≤ i → i < t + n → marked shadow i ≡ 1)
unfolding check_bits
check_bits_iff zero t shadow = ((λ _ i p q. absurd (omega arith)), λ _. refl)
check_bits_iff (suc n) t shadow =
    let rest = check_bits_iff n (t + 1) shadow in
    elim (Bool-cases (bit_and (shadow (t / 8)) (2 ^ (t % 8)) == 0)) [
      | inl clear ↦
          rw (clear, check_bits)
            (
              (λ h. cc),
              λ all. absurd (
                  ground
                    (arith, test_bit (shadow (t / 8)) (t % 8), all t (omega arith) (omega arith))),
            )
      | inr set_bit ↦
          let one : marked shadow t ≡ 1 =
            ground (arith, test_bit (shadow (t / 8)) (t % 8), bit-lt (shadow (t / 8)) (t % 8)) in
          rw (set_bit, check_bits)
            (
              (λ h i p q. elim (Bool-cases (t == i)) [
                | inl here ↦ rw (← (==_iff t i).0 here) one
                | inr later ↦ rest.0 h i (ground arith) (omega arith)
              ]),
              λ all. rest.1 (λ i p q. all i (omega arith) (omega arith)),
            )
    ]

-- An access inside the stack passes the tests of both functions.
stack_access :
    (r : Regions) (address size : ℕ)
    → IsRegion r.stack_start r.stack_length
    → Inside address size r.stack_start r.stack_length
    → (ltb (u64 (address + size)) address ≡ false)
      × (is_within address (u64 (address + size)) r.stack_start r.stack_length ≡ true)
stack_access r address size region inside = (ground arith, ground arith)

module _ (vm : Vm) (r : Regions) (shadow : ShadowStack) (address size : ℕ)
    (on : vm.undefined_behavior_check_enabled ≡ true)
    (region : IsRegion r.stack_start r.stack_length)
    (inside : Inside address size r.stack_start r.stack_length) where
  mark_shadow_stack_on :
      mark_shadow_stack vm r shadow address size ≡ mark_bits shadow (address - r.stack_start) size
  unfolding mark_shadow_stack
  mark_shadow_stack_on =
      let (no_wrap, within) = stack_access r address size region inside in
      simp (on, mark_shadow_stack, no_wrap, within)

  check_shadow_stack_on :
      check_shadow_stack vm r shadow address size ≡ check_bits shadow (address - r.stack_start) size
  unfolding check_shadow_stack
  check_shadow_stack_on =
      let (no_wrap, within) = stack_access r address size region inside in
      simp (on, check_shadow_stack, no_wrap, within)

-- With the checks on and a stack that does not wrap: after a write inside the stack, a read inside
-- the stack passes exactly if each byte that it reads lies in the range just written or was marked
-- before.
pub check-mark_iff :
    (vm : Vm) (r : Regions) (shadow : ShadowStack) (written size read count : ℕ)
    → vm.undefined_behavior_check_enabled ≡ true
    → IsRegion r.stack_start r.stack_length
    → Inside written size r.stack_start r.stack_length
    → Inside read count r.stack_start r.stack_length
    → (check_shadow_stack vm r (mark_shadow_stack vm r shadow written size) read count ≡ true) ↔ (
        (x : ℕ)
        → read ≤ x
        → x < read + count
        → ((written ≤ x) × (x < written + size)) ⊎ (marked shadow (x - r.stack_start) ≡ 1))
check-mark_iff vm r shadow written size read count on region inside_write inside_read =
    let start = r.stack_start in
    let bits = check_bits_iff count (read - start) (mark_bits shadow (written - start) size) in
    rw
      (
        mark_shadow_stack_on vm r shadow written size on region inside_write,
        check_shadow_stack_on vm r (mark_bits shadow (written - start) size) read count on region
            inside_read,
      )
      (
        (λ h x low high. ground (
          arith,
          bits.0 h (x - start) (omega arith) (omega arith),
          marked-mark_bits size (written - start) (x - start) shadow,
        )),
        λ all. bits.1 (λ i low high.
            let x = start + i in
            let back : start + i - start ≡ i = omega arith in
            ground (
              arith,
              rw back at (all (start + i) (omega arith) (omega arith)),
              marked-mark_bits size (written - start) i shadow,
            )),
      )
