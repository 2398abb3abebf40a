-- ===== src/Exec/Masks.antt =====
-- The ranges of the masks that libs/ubpf/vm/ubpf_vm.c keeps for its undefined behaviour checks: one
-- of 16 bits for the registers, and bytes for the stack.
use appclick_ubpf.Prelude.{ℕ, zero, suc, ◌+◌, ◌-◌, ◌/◌, ◌%◌, ◌^◌, ◌≤◌, ◌<◌, ◌≡◌, some, bit_or}
use appclick_ubpf.Prelude.{arith}
use appclick_ubpf.Prelude.Bits.{bit_or-lt, bit_and-lt}
use native.Mathlib.Nat.{pow-le-pow_right}
use appclick_ubpf.Isa.{Inst, IsInst}
use appclick_ubpf.Vm.{Vm}
use appclick_ubpf.Bounds.{Regions}
use appclick_ubpf.Shadow.{
  ShadowStack, shadow_mask, mark_bits, mark_shadow_stack, forget_arguments, after_call, after_exit,
  validate_shadow_register,
}

-- The mask of a register is one of sixteen bits.
mask_lt : (r : ℕ) → r < 2 ^ 4 → shadow_mask r < 2 ^ 16
mask_lt r h =
    let most : 2 ^ r ≤ 2 ^ 15 = pow-le-pow_right (omega arith) {j = 15} (omega arith) in
    omega (arith, most)

forget_arguments-lt : (m : ℕ) → m < 2 ^ 16 → forget_arguments m < 2 ^ 16
unfolding forget_arguments
forget_arguments-lt m h = bit_and-lt 16 m _ h (omega arith)

after_call-lt : (i : Inst) (m : ℕ) → m < 2 ^ 16 → after_call i m < 2 ^ 16
unfolding after_call
after_call-lt i m h =
    ground (arith, forget_arguments-lt (bit_or m 1) (bit_or-lt 16 m 1 h (omega arith)))

after_exit-lt : (i : Inst) (m m' : ℕ) → m < 2 ^ 16 → after_exit i m ≡ some m' → m' < 2 ^ 16
unfolding after_exit
after_exit-lt i m m' h e = ground (arith, forget_arguments-lt m h)

pub validate_shadow_register-lt :
    (vm : Vm) (m m' : ℕ) (i : Inst)
    → IsInst i
    → m < 2 ^ 16
    → validate_shadow_register vm m i ≡ some m'
    → m' < 2 ^ 16
unfolding validate_shadow_register
validate_shadow_register-lt vm m m' i fit h e =
    let w = bit_or m (shadow_mask i.dst) in
    let wide = bit_or-lt 16 m (shadow_mask i.dst) h (mask_lt i.dst fit.dst_fits) in
    ground (
      arith,
      after_exit-lt i (after_call i w) m' (after_call-lt i w wide),
      after_exit-lt i (after_call i m) m' (after_call-lt i m h),
    )

abbrev pub AreBytes : ShadowStack → Type 0
AreBytes shadow = (k : ℕ) → shadow k < 2 ^ 8

bit_byte : (b t : ℕ) → b < 2 ^ 8 → bit_or b (2 ^ (t % 8)) < 2 ^ 8
bit_byte b t h =
    let most : 2 ^ (t % 8) ≤ 2 ^ 7 = pow-le-pow_right (omega arith) {j = 7} (omega arith) in
    bit_or-lt 8 b (2 ^ (t % 8)) h (omega (arith, most))

mark_bits-AreBytes :
    (n t : ℕ) (shadow : ShadowStack) → AreBytes shadow → AreBytes (mark_bits shadow t n)
unfolding mark_bits
mark_bits-AreBytes zero t shadow h = h
mark_bits-AreBytes (suc n) t shadow h =
    mark_bits-AreBytes n (t + 1) _
      (λ k. ground (arith, h k, bit_byte (shadow (t / 8)) t (h (t / 8))))

pub mark_shadow_stack-AreBytes :
    (vm : Vm) (r : Regions) (shadow : ShadowStack) (address size : ℕ)
    → AreBytes shadow
    → AreBytes (mark_shadow_stack vm r shadow address size)
unfolding mark_shadow_stack
mark_shadow_stack-AreBytes vm r shadow address size h =
    λ k. ground (arith, h k, mark_bits-AreBytes size (address - r.stack_start) shadow h k)
