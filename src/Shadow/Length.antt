-- ===== src/Shadow/Length.antt =====
-- Where the shadow stack of libs/ubpf/vm/ubpf_vm.c is long enough: its length is the length of the
-- stack divided by eight, rounded down.
use appclick_ubpf.Prelude.{
  ℕ, zero, suc, ◌+◌, ◌-◌, ◌*◌, ◌%◌, ◌^◌, ◌≤◌, ◌<◌, ◌≡◌, refl, ◌⊎◌, inl, inr, true, false,
}
use appclick_ubpf.Prelude.{arith}
use appclick_ubpf.Vm.{Vm}
use appclick_ubpf.Bounds.{Regions}
use appclick_ubpf.Bounds.Laws.{IsRegion}
use appclick_ubpf.Shadow.{
  ShadowStack, shadow_length, mark_bits_stay, check_bits_stay, mark_stays, check_stays,
}

mark_bits_stay_in : (length t n : ℕ) → t + n ≤ 8 * length → mark_bits_stay length t n ≡ true
unfolding mark_bits_stay
mark_bits_stay_in length t zero h = refl
mark_bits_stay_in length t (suc n) h = ground (arith, mark_bits_stay_in length (t + 1) n)

check_bits_stay_in :
    (length : ℕ) (shadow : ShadowStack) (t n : ℕ)
    → t + n ≤ 8 * length
    → check_bits_stay length shadow t n ≡ true
unfolding check_bits_stay
check_bits_stay_in length shadow t zero h = refl
check_bits_stay_in length shadow t (suc n) h =
    ground (arith, check_bits_stay_in length shadow (t + 1) n)

-- The undefined behaviour check is off, or there are eight stack bytes for each shadow byte.
abbrev pub HasShadow : Vm → Regions → Type 0
HasShadow vm r = (vm.undefined_behavior_check_enabled ≡ false) ⊎ (r.stack_length % 8 ≡ 0)

-- Then neither function leaves the array, at any address.
pub mark_stays_in :
    (vm : Vm) (r : Regions) (address size : ℕ)
    → HasShadow vm r
    → IsRegion r.stack_start r.stack_length
    → address < 2 ^ 64
    → size < 2 ^ 32
    → mark_stays vm r address size ≡ true
unfolding mark_stays
mark_stays_in vm r address size (inl off) region fits small = ground arith
mark_stays_in vm r address size (inr whole) region fits small =
    ground (arith, mark_bits_stay_in (shadow_length r) (address - r.stack_start) size)

pub check_stays_in :
    (vm : Vm) (r : Regions) (shadow : ShadowStack) (address size : ℕ)
    → HasShadow vm r
    → IsRegion r.stack_start r.stack_length
    → address < 2 ^ 64
    → size < 2 ^ 32
    → check_stays vm r shadow address size ≡ true
unfolding check_stays
check_stays_in vm r shadow address size (inl off) region fits small = ground arith
check_stays_in vm r shadow address size (inr whole) region fits small =
    ground (arith, check_bits_stay_in (shadow_length r) shadow (address - r.stack_start) size)
