-- ===== src/Bounds.antt =====
-- `bounds_check` of libs/ubpf/vm/ubpf_vm.c: whether a load or a store may touch an address.
pub mod Laws
use appclick_ubpf.Prelude.{ℕ, ◌+◌, ◌%◌, Bool, true, false, not, ◌&&◌, Option, none, some}
use appclick_ubpf.Prelude.{ltb, leb, if◌then◌else◌}
use appclick_ubpf.Words.{u64}
use appclick_ubpf.Vm.{Vm}

-- The memory and the stack that a run is given: addresses and lengths.
pub record Regions : Type 0 where
  pub mem : ℕ
  pub mem_len : ℕ
  pub stack_start : ℕ
  pub stack_length : ℕ

-- `[start, end)` lies in `[region, region + len)`, where the region's end wraps.
abbrev pub is_within : (access_start access_end region len : ℕ) → Bool
is_within access_start access_end region len =
    leb region access_start && leb access_end (u64 (region + len))

-- The registered function, if any, accepts the access.
abbrev pub is_accepted : Vm → ℕ → ℕ → Bool
is_accepted vm access_start size = elim vm.bounds_check_function [
  | none ↦ false
  | some accepts ↦ accepts vm.bounds_check_user_data access_start size
]

unfoldable pub bounds_check : Vm → Regions → (addr size : ℕ) → Bool
bounds_check vm r addr size =
    if not vm.bounds_check_enabled
    then true
    else (let access_end = u64 (addr + size) in
        if ltb access_end addr
        then false
        else if is_within addr access_end r.mem r.mem_len
        then true
        else if is_within addr access_end r.stack_start r.stack_length
        then true
        else is_accepted vm addr size)
