-- ===== src/Bounds/Laws.antt =====
-- What the bounds check lets through.
use appclick_ubpf.Prelude.{ℕ, ◌+◌, ◌^◌, ◌≤◌, ◌<◌, ◌≡◌, ◌⊎◌, ◌↔◌}
use appclick_ubpf.Prelude.{Bool, true, false, arith}
use appclick_ubpf.Vm.{Vm}
use appclick_ubpf.Prelude.{ltb, if◌then◌else◌}
use appclick_ubpf.Words.{u64}
use appclick_ubpf.Bounds.{Regions, is_within, is_accepted, bounds_check}

-- A region that does not wrap round the end of the address space.
abbrev pub IsRegion : ℕ → ℕ → Type 0
IsRegion start len = start + len < 2 ^ 64

abbrev pub Inside : (addr size region len : ℕ) → Type 0
Inside addr size region len = (region ≤ addr) × (addr + size ≤ region + len)

-- The tests of the check, for either answer of the registered function.
tests_iff :
    (r : Regions) (addr size : ℕ) (accepted : Bool)
    → IsRegion r.mem r.mem_len
    → IsRegion r.stack_start r.stack_length
    → addr < 2 ^ 64
    → 0 < size
    → size < 2 ^ 32
    → ((if ltb (u64 (addr + size)) addr
          then false
          else if is_within addr (u64 (addr + size)) r.mem r.mem_len
          then true
          else if is_within addr (u64 (addr + size)) r.stack_start r.stack_length
          then true
          else accepted)
        ≡ true)
      ↔ ((addr + size < 2 ^ 64)
          × (Inside addr size r.mem r.mem_len
              ⊎ (Inside addr size r.stack_start r.stack_length ⊎ (accepted ≡ true))))
tests_iff r addr size accepted mem stack fits pos small = ground arith

-- With the check on, and a memory and a stack that do not run over the end of the address space:
-- an access of at least one byte at a 64-bit address passes exactly if it does not run over that
-- end, and lies in the memory, or in the stack, or the registered function accepts it.
pub bounds_check_iff :
    (vm : Vm) (r : Regions) (addr size : ℕ)
    → vm.bounds_check_enabled ≡ true
    → IsRegion r.mem r.mem_len
    → IsRegion r.stack_start r.stack_length
    → addr < 2 ^ 64
    → 0 < size
    → size < 2 ^ 32
    → (bounds_check vm r addr size ≡ true) ↔ (
        (addr + size < 2 ^ 64)
        × (Inside addr size r.mem r.mem_len
            ⊎ (Inside addr size r.stack_start r.stack_length ⊎ (is_accepted vm addr size ≡ true))))
unfolding bounds_check
bounds_check_iff vm r addr size on mem stack fits pos small =
    let checked = tests_iff r addr size (is_accepted vm addr size) mem stack fits pos small in
    (λ h. checked.0 (simp (on, bounds_check) at h), λ h. simp (on, bounds_check) (checked.1 h))
