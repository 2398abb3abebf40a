-- ===== src/Memory.antt =====
-- The bytes that a program can reach, with `ubpf_mem_load` and `ubpf_mem_store` of
-- libs/ubpf/vm/ubpf_vm.c, on a little-endian host.
pub mod Laws
use appclick_ubpf.Prelude.{ℕ, zero, suc, ◌+◌, ◌-◌, ◌*◌, ◌/◌, ◌%◌, bit_and, Bool, Option, none, some}
use appclick_ubpf.Prelude.{◌==◌, if◌then◌else◌, update}

-- The byte at each address; `none` where nothing is mapped, so that an access faults.
abbrev pub Memory : Type 0
Memory = ℕ → Option ℕ

infixl 5 ◌>>=◌
abbrev ◌>>=◌ {ℓ κ} : {A : Type ℓ} {B : Type κ} → Option A → (A → Option B) → Option B
none >>= f = none
some x >>= f = f x

-- `n` bytes from `address` on, the first one lowest.
unfoldable pub read_bytes : Memory → ℕ → ℕ → Option ℕ
read_bytes m address zero = some 0
read_bytes m address (suc n) = do
  low ← m address
  high ← read_bytes m (address + 1) n
  some (low + high * 256)

-- The lowest `n` bytes of `value` to `address` on; every address must be mapped.
unfoldable pub write_bytes : Memory → ℕ → ℕ → ℕ → Option Memory
write_bytes m address value zero = some m
write_bytes m address value (suc n) = do
  _ ← m address
  write_bytes (update m address (some (value % 256))) (address + 1) (value / 256) n

-- `IS_ALIGNED`.
unfoldable pub is_aligned : ℕ → ℕ → Bool
is_aligned x a = bit_and x (a - 1) == 0

-- `*(uint8_t*)address` and its kin; any other size aborts.
unfoldable pub load_aligned : Memory → ℕ → ℕ → Option ℕ
load_aligned m address size =
    if size == 1
    then read_bytes m address 1
    else if size == 2
    then read_bytes m address 2
    else if size == 4
    then read_bytes m address 4
    else if size == 8
    then read_bytes m address 8
    else none

-- The other branch copies `size` bytes into a zeroed `uint64_t`.
unfoldable pub mem_load : Memory → ℕ → ℕ → Option ℕ
unfolding is_aligned load_aligned
mem_load m address size =
    if is_aligned address size then load_aligned m address size else read_bytes m address size

unfoldable pub store_aligned : Memory → ℕ → ℕ → ℕ → Option Memory
store_aligned m address value size =
    if size == 1
    then write_bytes m address value 1
    else if size == 2
    then write_bytes m address value 2
    else if size == 4
    then write_bytes m address value 4
    else if size == 8
    then write_bytes m address value 8
    else none

unfoldable pub mem_store : Memory → ℕ → ℕ → ℕ → Option Memory
unfolding is_aligned store_aligned
mem_store m address value size =
    if is_aligned address size
    then store_aligned m address value size
    else write_bytes m address value size
