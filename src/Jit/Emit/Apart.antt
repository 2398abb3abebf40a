-- ===== src/Jit/Emit/Apart.antt =====
-- The four tables of relocations of `struct jit_state` (libs/ubpf/vm/ubpf_jit_support.h) as one: no
-- two relocations share a byte of the code.
use appclick_ubpf.Prelude.{ℕ, ◌+◌, ◌≤◌, ◌<◌, ◌≡◌, refl, ◌⊎◌, inl, inr, arith}
use appclick_ubpf.Prelude.{◌==◌, if◌then◌else◌, update, Bool-cases}
use appclick_ubpf.Jit.State.{JitState, PatchableRelative}

pub record Tables : Type 0 where
  pub jumps : ℕ → PatchableRelative
  pub loads : ℕ → PatchableRelative
  pub leas : ℕ → PatchableRelative
  pub local_calls : ℕ → PatchableRelative
  pub num_jumps : ℕ
  pub num_loads : ℕ
  pub num_leas : ℕ
  pub num_local_calls : ℕ

abbrev pub tables_of : JitState → Tables
tables_of s = record {
  jumps = s.jumps;
  loads = s.loads;
  leas = s.leas;
  local_calls = s.local_calls;
  num_jumps = s.num_jumps;
  num_loads = s.num_loads;
  num_leas = s.num_leas;
  num_local_calls = s.num_local_calls;
}

pub data Table : Type 0 where
  jump load lea local_call : Table

abbrev pub entry : Tables → Table → ℕ → PatchableRelative
entry t jump = t.jumps
entry t load = t.loads
entry t lea = t.leas
entry t local_call = t.local_calls

abbrev pub count : Tables → Table → ℕ
count t jump = t.num_jumps
count t load = t.num_loads
count t lea = t.num_leas
count t local_call = t.num_local_calls

-- The bytes that a relocation takes.
abbrev pub width : PatchableRelative → ℕ
width p = if p.near then 1 else 4

abbrev pub four : PatchableRelative → ℕ
four p = 4

abbrev pub span : Table → PatchableRelative → ℕ
span jump p = width p
span load p = 4
span lea p = 4
span local_call p = 4

-- The place after the last byte of a relocation.
abbrev pub last : Tables → Table → ℕ → ℕ
last t a k = (entry t a k).offset_loc + span a (entry t a k)

-- Two different relocations share no byte.
abbrev pub Apart : Tables → Type 0
Apart t =
    (a b : Table) (k n : ℕ)
    → k < count t a
    → n < count t b
    → ¬ ((a ≡ b) × (k ≡ n))
    → (last t a k ≤ (entry t b n).offset_loc) ⊎ (last t b n ≤ (entry t a k).offset_loc)

-- One more entry at the end of a table.
abbrev pub added : Tables → Table → PatchableRelative → Tables
added t jump e = record t { jumps = update t.jumps t.num_jumps e; num_jumps = t.num_jumps + 1 }
added t load e = record t { loads = update t.loads t.num_loads e; num_loads = t.num_loads + 1 }
added t lea e = record t { leas = update t.leas t.num_leas e; num_leas = t.num_leas + 1 }
added t local_call e = record t {
  local_calls = update t.local_calls t.num_local_calls e;
  num_local_calls = t.num_local_calls + 1;
}

-- An entry of the longer table is the new one or an old one.
abbrev IsNewOrOld : Tables → Table → PatchableRelative → Table → ℕ → Type 0
IsNewOrOld t a e b k =
    ((b ≡ a) × (k ≡ count t a) × (entry (added t a e) b k ≡ e))
    ⊎ ((k < count t b) × (entry (added t a e) b k ≡ entry t b k))

new_or_old_here :
    (table : ℕ → PatchableRelative) (n : ℕ) (e : PatchableRelative) (k : ℕ)
    → k < n + 1
    → ((k ≡ n) × (update table n e k ≡ e)) ⊎ ((k < n) × (update table n e k ≡ table k))
new_or_old_here table n e k h = elim (Bool-cases (n == k)) [
  | inl same ↦ inl (ground arith, rw same refl)
  | inr other ↦ inr (ground arith, rw other refl)
]

-- The same, for an entry of the table that has grown.
here :
    (t : Tables) (a : Table) (e : PatchableRelative) (k : ℕ)
    → k < count t a + 1
    → ((k ≡ count t a) × (entry (added t a e) a k ≡ e))
      ⊎ ((k < count t a) × (entry (added t a e) a k ≡ entry t a k))
here t jump e k h = new_or_old_here t.jumps t.num_jumps e k h
here t load e k h = new_or_old_here t.loads t.num_loads e k h
here t lea e k h = new_or_old_here t.leas t.num_leas e k h
here t local_call e k h = new_or_old_here t.local_calls t.num_local_calls e k h

with_table :
    (t : Tables) (a : Table) (e : PatchableRelative) (k : ℕ)
    → ((k ≡ count t a) × (entry (added t a e) a k ≡ e))
      ⊎ ((k < count t a) × (entry (added t a e) a k ≡ entry t a k))
    → IsNewOrOld t a e a k
with_table t a e k (inl (p, q)) = inl (refl, p, q)
with_table t a e k (inr old) = inr old

new_or_old :
    (t : Tables) (a : Table) (e : PatchableRelative) (b : Table) (k : ℕ)
    → k < count (added t a e) b
    → IsNewOrOld t a e b k
new_or_old t jump e jump k h = with_table t jump e k (here t jump e k h)
new_or_old t load e load k h = with_table t load e k (here t load e k h)
new_or_old t lea e lea k h = with_table t lea e k (here t lea e k h)
new_or_old t local_call e local_call k h = with_table t local_call e k (here t local_call e k h)
new_or_old t jump e load k h = inr (h, refl)
new_or_old t jump e lea k h = inr (h, refl)
new_or_old t jump e local_call k h = inr (h, refl)
new_or_old t load e jump k h = inr (h, refl)
new_or_old t load e lea k h = inr (h, refl)
new_or_old t load e local_call k h = inr (h, refl)
new_or_old t lea e jump k h = inr (h, refl)
new_or_old t lea e load k h = inr (h, refl)
new_or_old t lea e local_call k h = inr (h, refl)
new_or_old t local_call e jump k h = inr (h, refl)
new_or_old t local_call e load k h = inr (h, refl)
new_or_old t local_call e lea k h = inr (h, refl)

-- An entry behind all others keeps the tables apart.
pub Apart-added :
    (t : Tables) (a : Table) (e : PatchableRelative)
    → Apart t
    → ((b : Table) (k : ℕ) → k < count t b → last t b k ≤ e.offset_loc)
    → Apart (added t a e)
Apart-added t a e apart behind b c k n hk hn ne = elim (new_or_old t a e b k hk) [
  | inl (eb, ek, eq) ↦ elim (new_or_old t a e c n hn) [
    | inl (ec, en, eq') ↦ absurd (ne (rw (eb, ec) refl, rw (ek, en) refl))
    | inr (old, eq') ↦ inr (rw (eq, eq') (behind c n old))
  ]
  | inr (old, eq) ↦ elim (new_or_old t a e c n hn) [
    | inl (ec, en, eq') ↦ inl (rw (eq, eq') (behind b k old))
    | inr (old', eq') ↦ rw (eq, eq') (apart b c k n old old' ne)
  ]
]

-- Entries at the same places with the same widths are as far apart.
pub Apart-same :
    (t t' : Tables)
    → ((a : Table) → count t' a ≡ count t a)
    → ((a : Table) (k : ℕ) → (entry t' a k).offset_loc ≡ (entry t a k).offset_loc)
    → ((a : Table) (k : ℕ) → last t' a k ≡ last t a k)
    → Apart t
    → Apart t'
Apart-same t t' counts places lasts apart a b k n hk hn ne =
    rw (lasts a k, lasts b n, places a k, places b n)
      (apart a b k n (rw (counts a) at hk) (rw (counts b) at hn) ne)

pub Apart-empty :
    (t : Tables)
    → t.num_jumps ≡ 0
    → t.num_loads ≡ 0
    → t.num_leas ≡ 0
    → t.num_local_calls ≡ 0
    → Apart t
Apart-empty t ej el ea ec jump b k n hk hn ne = absurd (omega arith)
Apart-empty t ej el ea ec load b k n hk hn ne = absurd (omega arith)
Apart-empty t ej el ea ec lea b k n hk hn ne = absurd (omega arith)
Apart-empty t ej el ea ec local_call b k n hk hn ne = absurd (omega arith)

-- Every relocation begins at `offset` at the latest; its bytes may be missing after an error.
abbrev pub Begun : Tables → ℕ → Type 0
Begun t offset = (a : Table) (k : ℕ) → k < count t a → (entry t a k).offset_loc ≤ offset

pub Begun-added :
    (t : Tables) (a : Table) (e : PatchableRelative) (offset : ℕ)
    → Begun t offset
    → e.offset_loc ≤ offset
    → Begun (added t a e) offset
Begun-added t a e offset begun h b k hk = elim (new_or_old t a e b k hk) [
  | inl (eb, ek, eq) ↦ rw eq h
  | inr (old, eq) ↦ rw eq (begun b k old)
]

pub Begun-same :
    (t t' : Tables) (offset : ℕ)
    → ((a : Table) → count t' a ≡ count t a)
    → ((a : Table) (k : ℕ) → (entry t' a k).offset_loc ≡ (entry t a k).offset_loc)
    → Begun t offset
    → Begun t' offset
Begun-same t t' offset counts places begun a k h = rw (places a k) (begun a k (rw (counts a) at h))

pub Begun-empty :
    (t : Tables) (offset : ℕ)
    → t.num_jumps ≡ 0
    → t.num_loads ≡ 0
    → t.num_leas ≡ 0
    → t.num_local_calls ≡ 0
    → Begun t offset
Begun-empty t offset ej el ea ec jump k h = absurd (omega arith)
Begun-empty t offset ej el ea ec load k h = absurd (omega arith)
Begun-empty t offset ej el ea ec lea k h = absurd (omega arith)
Begun-empty t offset ej el ea ec local_call k h = absurd (omega arith)
