-- ===== src/Words.antt =====
-- The integer casts of libs/ubpf/vm/ubpf_vm.c. A machine word is the number that its bits write in
-- base two; a signed value is an integer.
use appclick_ubpf.Prelude.{ℕ, ◌+◌, ◌-◌, ◌/◌, ◌%◌, ◌^◌, ◌<◌, ◌≡◌, Bool, arith}
use appclick_ubpf.Prelude.{ltb, leb, if◌then◌else◌}

-- `u32`: the conversion of a `uint64_t` to `uint32_t`.
abbrev pub u32 : ℕ → ℕ
u32 x = x % 2 ^ 32

-- Arithmetic on `uint64_t` wraps.
abbrev pub u64 : ℕ → ℕ
u64 x = x % 2 ^ 64

abbrev pub u16 : ℕ → ℕ
u16 x = x % 2 ^ 16

-- `negsuc n` is -(n + 1).
pub data ℤ : Type 0 where
  pos : ℕ → ℤ
  negsuc : ℕ → ℤ

-- a - b, as an integer.
abbrev pub sub_ℕ : ℕ → ℕ → ℤ
sub_ℕ a b = if leb b a then pos (a - b) else negsuc (b - a - 1)

abbrev pub ltb_ℤ : ℤ → ℤ → Bool
ltb_ℤ (pos a) (pos b) = ltb a b
ltb_ℤ (pos a) (negsuc b) = Bool.false
ltb_ℤ (negsuc a) (pos b) = Bool.true
ltb_ℤ (negsuc a) (negsuc b) = ltb b a

abbrev pub leb_ℤ : ℤ → ℤ → Bool
leb_ℤ (pos a) (pos b) = leb a b
leb_ℤ (pos a) (negsuc b) = Bool.false
leb_ℤ (negsuc a) (pos b) = Bool.true
leb_ℤ (negsuc a) (negsuc b) = leb b a

-- The value of a pattern read as `int32_t` or `int64_t`.
abbrev pub signed32 : ℕ → ℤ
signed32 x = if ltb x (2 ^ 31) then pos x else negsuc (2 ^ 32 - 1 - x)

abbrev pub signed64 : ℕ → ℤ
signed64 x = if ltb x (2 ^ 63) then pos x else negsuc (2 ^ 64 - 1 - x)

-- `i32`: the conversion of a `uint64_t` to `int32_t`.
abbrev pub i32 : ℕ → ℤ
i32 x = signed32 (u32 x)

-- `i64`: an `int32_t` extended to 64 bits by its sign, as a pattern.
unfoldable pub i64 : ℕ → ℕ
i64 imm = if ltb imm (2 ^ 31) then imm else imm + (2 ^ 64 - 2 ^ 32)

-- An `int16_t` extended to 64 bits by its sign.
unfoldable pub i64_of_i16 : ℕ → ℕ
i64_of_i16 offset = if ltb offset (2 ^ 15) then offset else offset + (2 ^ 64 - 2 ^ 16)

-- `x >> k` of a signed 32-bit or 64-bit value: the sign fills the top.
unfoldable pub arsh32 : ℕ → ℕ → ℕ
arsh32 x k = if ltb x (2 ^ 31) then x / 2 ^ k else 2 ^ 64 - 1 - (2 ^ 32 - 1 - x) / 2 ^ k

unfoldable pub arsh64 : ℕ → ℕ → ℕ
arsh64 x k = if ltb x (2 ^ 63) then x / 2 ^ k else 2 ^ 64 - 1 - (2 ^ 64 - 1 - x) / 2 ^ k

pub i64-lt : (imm : ℕ) → imm < 2 ^ 32 → i64 imm < 2 ^ 64
unfolding i64
i64-lt imm h = ground arith

-- Sign extension keeps the value.
pub signed64-i64 : (imm : ℕ) → imm < 2 ^ 32 → signed64 (i64 imm) ≡ signed32 imm
unfolding i64
signed64-i64 imm h = ground arith
