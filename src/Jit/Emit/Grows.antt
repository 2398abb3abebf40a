-- ===== src/Jit/Emit/Grows.antt =====
-- What every emitter of libs/ubpf/vm/ubpf_jit_x86_64.h keeps: the buffer's bounds, the bytes that
-- are there, and the places of the relocations.
pub mod Rules
pub mod Instructions
use appclick_ubpf.Prelude.{
  ℕ, zero, suc, ◌+◌, ◌≤◌, ◌<◌, ◌^◌, ◌≡◌, ◌≢◌, refl, ◌∙◌, sym, ◌⊎◌, inl, inr, Bool, true, false,
  Option, some, List, [], ◌∷◌,
}
use appclick_ubpf.Prelude.{arith, update, ltb, length, Bool-cases, ◌==◌, if◌then◌else◌}
use appclick_ubpf.Words.{u32}
use appclick_ubpf.Vm.{max_insts}
use appclick_ubpf.Jit.State.{
  JitState, JitProgress, PatchableRelative, no_error, not_enough_space, unexpected_instruction,
  unknown_instruction, Message, is_no_error, modify, Emit, pure, gets, ◌>>=◌, ◌>>◌,
}
use appclick_ubpf.Jit.State.Keeps.{Keeps, Keeps-modify, Keeps-bind, emit_rules}
use appclick_ubpf.Jit.Support.{
  emit_patchable_relative, emit_patchable_relative_ex, note_load, note_lea, emit_jump_target,
}
use appclick_ubpf.Jit.Support.Tables.{offset_loc-fixup, near-fixup}
use appclick_ubpf.Jit.Emit.Apart.{
  Begun, Tables, tables_of, Table, jump, load, lea, local_call, count, last, width, four, Apart,
}
use appclick_ubpf.Jit.Emit.{
  copy_bytes, emit_bytes, le_bytes, emit1, emit2, emit4, emit8, emit_4byte_offset_placeholder,
  set_jit_status, note_jump, note_local_call, emit_jump_address_reloc, emit_near_jump_address_reloc,
  emit_local_call_address_reloc,
}

-- The first `n` relocations of a table lie before `offset`, with all their bytes.
abbrev pub IsPlaced : (PatchableRelative → ℕ) → (ℕ → PatchableRelative) → ℕ → ℕ → Type 0
IsPlaced size table n offset = (k : ℕ) → k < n → (table k).offset_loc + size (table k) ≤ offset

pub record ArePlaced (s : JitState) : Type 0 where
  pub jumps_placed : IsPlaced width s.jumps s.num_jumps s.offset
  pub loads_placed : IsPlaced four s.loads s.num_loads s.offset
  pub leas_placed : IsPlaced four s.leas s.num_leas s.offset
  pub local_calls_placed : IsPlaced four s.local_calls s.num_local_calls s.offset
  pub apart : Apart (tables_of s)

-- The error says why in its message, or `translate` will say it.
pub data Says : JitProgress → Option Message → Type 0 where
  later :
      {p : JitProgress} {m : Option Message}
      → p ≢ unexpected_instruction
      → p ≢ unknown_instruction
      → Says p m
  now : {p : JitProgress} {m : Message} → Says p (some m)

-- The offset stays in the buffer, no addition to it wraps, no table overflows, and without an error
-- every relocation lies in the code.
pub record IsEmitting (s : JitState) : Type 0 where
  pub in_buffer : s.offset ≤ s.size
  pub no_wrap : s.size + 8 < 2 ^ 32
  pub jumps_fit : s.num_jumps ≤ max_insts
  pub loads_fit : s.num_loads ≤ max_insts
  pub leas_fit : s.num_leas ≤ max_insts
  pub local_calls_fit : s.num_local_calls ≤ max_insts
  pub begun : Begun (tables_of s) s.offset
  pub placed : s.jit_status ≡ no_error → ArePlaced s
  pub says : Says s.jit_status s.errmsg

-- What emission may do to a state: the offset grows, the bytes before it and the memory beyond the
-- buffer stay, and after an error nothing is written and the error stays.
pub record Grows (s₀ s : JitState) : Type 0 where
  pub emitting : IsEmitting s
  pub size_kept : s.size ≡ s₀.size
  pub offset_grows : s₀.offset ≤ s.offset
  pub bytes_kept : (i : ℕ) → i < s₀.offset → s.buf i ≡ s₀.buf i
  pub outside_kept : (i : ℕ) → s₀.size ≤ i → s.buf i ≡ s₀.buf i
  pub stuck :
      s₀.jit_status ≢ no_error
      → (s.jit_status ≢ no_error) × (s.offset ≡ s₀.offset) × ((i : ℕ) → s.buf i ≡ s₀.buf i)

pub Grows-refl : {s : JitState} → IsEmitting s → Grows s s
Grows-refl v = record {
  emitting = v;
  size_kept = refl;
  offset_grows = omega arith;
  bytes_kept = λ i h. refl;
  outside_kept = λ i h. refl;
  stuck = λ e. (e, refl, λ i. refl);
}

-- A copy changes only its own bytes.
pub copy_bytes-outside :
    (buf : ℕ → ℕ) (loc : ℕ) (xs : List ℕ) (i : ℕ)
    → (i < loc) ⊎ (loc + length xs ≤ i)
    → copy_bytes buf loc xs i ≡ buf i
unfolding copy_bytes
copy_bytes-outside buf loc [] i h = refl
copy_bytes-outside buf loc (x ∷ xs) i (inl h) =
    ground (arith, copy_bytes-outside (update buf loc x) (loc + 1) xs i (inl (omega arith)))
copy_bytes-outside buf loc (x ∷ xs) i (inr h) =
    ground (arith, copy_bytes-outside (update buf loc x) (loc + 1) xs i (inr (omega arith)))

-- Every relocation ends before the offset.
pub last-le :
    (s : JitState)
    → ArePlaced s
    → (a : Table) (k : ℕ) → k < count (tables_of s) a
    → last (tables_of s) a k ≤ s.offset
last-le s p jump k h = p.jumps_placed k h
last-le s p load k h = p.loads_placed k h
last-le s p lea k h = p.leas_placed k h
last-le s p local_call k h = p.local_calls_placed k h

-- The three branches of `emit_bytes`.
pub stuck_bytes :
    (bytes : List ℕ) (s : JitState) → is_no_error s.jit_status ≡ false → (emit_bytes bytes s).1 ≡ s
unfolding emit_bytes modify
stuck_bytes bytes s e = rw e refl

pub full_bytes :
    (bytes : List ℕ) (s : JitState)
    → is_no_error s.jit_status ≡ true
    → ltb s.size (u32 (s.offset + length bytes)) ≡ true
    → (emit_bytes bytes s).1 ≡ record s { jit_status = not_enough_space }
unfolding emit_bytes modify
full_bytes bytes s e f = rw (e, f) refl

pub appended :
    (bytes : List ℕ) (s : JitState)
    → is_no_error s.jit_status ≡ true
    → ltb s.size (u32 (s.offset + length bytes)) ≡ false
    → (emit_bytes bytes s).1
      ≡ record s { buf = copy_bytes s.buf s.offset bytes; offset = u32 (s.offset + length bytes) }
unfolding emit_bytes modify
appended bytes s e f = rw (e, f) refl

pub no_error_of : (p : JitProgress) → is_no_error p ≡ true → p ≡ no_error
no_error_of no_error e = refl
no_error_of _ e = absurd (cc)

pub error_of : (p : JitProgress) → is_no_error p ≡ false → p ≢ no_error
error_of p e q = absurd (cc)

-- The ways that a state may change in one step.
pub Grows-error :
    {s₀ s : JitState} (st : JitProgress)
    → st ≢ no_error
    → Says st s.errmsg
    → Grows s₀ s
    → Grows s₀ (record s { jit_status = st })
Grows-error {s₀} {s} st bad why g = record {
  emitting = record {
    in_buffer = g.emitting.in_buffer;
    no_wrap = g.emitting.no_wrap;
    jumps_fit = g.emitting.jumps_fit;
    loads_fit = g.emitting.loads_fit;
    leas_fit = g.emitting.leas_fit;
    local_calls_fit = g.emitting.local_calls_fit;
    begun = g.emitting.begun;
    placed = λ e. absurd (bad e);
    says = why;
  };
  size_kept = g.size_kept;
  offset_grows = g.offset_grows;
  bytes_kept = g.bytes_kept;
  outside_kept = g.outside_kept;
  stuck = λ e. let (_, o, b) = g.stuck e in (bad, o, b);
}

Grows-append :
    {s₀ s : JitState} (bytes : List ℕ) (n : ℕ)
    → n ≡ s.offset + length bytes
    → s.jit_status ≡ no_error
    → n ≤ s.size
    → Grows s₀ s
    → Grows s₀ (record s { buf = copy_bytes s.buf s.offset bytes; offset = n })
Grows-append {s₀} {s} bytes n en ok fits g = record {
  emitting = record {
    in_buffer = fits;
    no_wrap = g.emitting.no_wrap;
    jumps_fit = g.emitting.jumps_fit;
    loads_fit = g.emitting.loads_fit;
    leas_fit = g.emitting.leas_fit;
    local_calls_fit = g.emitting.local_calls_fit;
    begun = λ a k h. omega (arith, g.emitting.begun a k h);
    placed = λ e. record {
      jumps_placed = λ k h. omega (arith, (g.emitting.placed ok).jumps_placed k h);
      loads_placed = λ k h. omega (arith, (g.emitting.placed ok).loads_placed k h);
      leas_placed = λ k h. omega (arith, (g.emitting.placed ok).leas_placed k h);
      local_calls_placed = λ k h. omega (arith, (g.emitting.placed ok).local_calls_placed k h);
      apart = (g.emitting.placed ok).apart;
    };
    says = g.emitting.says;
  };
  size_kept = g.size_kept;
  offset_grows = omega (arith, g.offset_grows);
  bytes_kept = λ i h.
      copy_bytes-outside s.buf s.offset bytes i (inl (omega (arith, g.offset_grows)))
      ∙ g.bytes_kept i h;
  outside_kept = λ i h.
      copy_bytes-outside s.buf s.offset bytes i (inr (omega (arith, g.size_kept)))
      ∙ g.outside_kept i h;
  stuck = λ e. absurd ((g.stuck e).0 ok);
}

pub Grows-bytes :
    {s₀ s : JitState} (bytes : List ℕ)
    → length bytes ≤ 8
    → Grows s₀ s
    → Grows s₀ (emit_bytes bytes s).1
Grows-bytes {s₀} {s} bytes small g = elim (Bool-cases (is_no_error s.jit_status)) [
  | inr e ↦ rw (stuck_bytes bytes s e) g
  | inl e ↦ elim (Bool-cases (ltb s.size (u32 (s.offset + length bytes)))) [
    | inl f ↦ rw (full_bytes bytes s e f) (Grows-error not_enough_space (cc) (later (cc) (cc)) g)
    | inr f ↦ rw (appended bytes s e f) (
        Grows-append bytes (u32 (s.offset + length bytes))
          (omega (arith, g.emitting.in_buffer, g.emitting.no_wrap)) (no_error_of _ e) (ground arith)
          g)
  ]
]

-- An entry for a table, whose bytes lie in the code.
pub IsPlaced-update :
    (size : PatchableRelative → ℕ) (table : ℕ → PatchableRelative) (n offset : ℕ)
    (e : PatchableRelative)
    → IsPlaced size table n offset
    → e.offset_loc + size e ≤ offset
    → IsPlaced size (update table n e) (n + 1) offset
IsPlaced-update size table n offset e old fresh k h = elim (Bool-cases (n == k)) [
  | inl same ↦ rw same fresh
  | inr other ↦ rw other (old k (ground arith))
]

-- `s'` differs from `s` in its tables, none of which is too full, and in what emission never reads.
pub record OtherTables (s s' : JitState) : Type 0 where
  pub offset_same : s'.offset ≡ s.offset
  pub size_same : s'.size ≡ s.size
  pub buf_same : s'.buf ≡ s.buf
  pub status_same : s'.jit_status ≡ s.jit_status
  pub jumps_within : s'.num_jumps ≤ max_insts
  pub loads_within : s'.num_loads ≤ max_insts
  pub leas_within : s'.num_leas ≤ max_insts
  pub local_calls_within : s'.num_local_calls ≤ max_insts
  pub begun_still : Begun (tables_of s') s'.offset
  pub says_still : Says s'.jit_status s'.errmsg

pub Grows-tables :
    {s₀ s : JitState} (s' : JitState)
    → OtherTables s s'
    → (s.jit_status ≡ no_error → ArePlaced s → ArePlaced s')
    → Grows s₀ s
    → Grows s₀ s'
Grows-tables {s₀} {s} s' o pl g = record {
  emitting = record {
    in_buffer = rw (o.offset_same, o.size_same) g.emitting.in_buffer;
    no_wrap = rw o.size_same g.emitting.no_wrap;
    jumps_fit = o.jumps_within;
    loads_fit = o.loads_within;
    leas_fit = o.leas_within;
    local_calls_fit = o.local_calls_within;
    begun = o.begun_still;
    placed = λ e. pl (sym o.status_same ∙ e) (g.emitting.placed (sym o.status_same ∙ e));
    says = o.says_still;
  };
  size_kept = o.size_same ∙ g.size_kept;
  offset_grows = rw o.offset_same g.offset_grows;
  bytes_kept = λ i h. rw o.buf_same (g.bytes_kept i h);
  outside_kept = λ i h. rw o.buf_same (g.outside_kept i h);
  stuck = λ e. rw (o.status_same, o.offset_same, o.buf_same) (g.stuck e);
}

-- A relocation is noted before its bytes are emitted. Whether they fit or not, the tables are right
-- afterwards.
pub Grows-reserve :
    {s₀ s : JitState} (s' : JitState) (bytes : List ℕ)
    → length bytes ≤ 8
    → OtherTables s s'
    → ((buf : ℕ → ℕ)
        → s.jit_status ≡ no_error
        → ArePlaced s
        → ArePlaced (record s { buf = buf; offset = s.offset + length bytes })
        → ArePlaced (record s' { buf = buf; offset = s.offset + length bytes }))
    → Grows s₀ s
    → Grows s₀ (emit_bytes bytes s').1
Grows-reserve {s₀} {s} s' bytes small o pl g = elim (Bool-cases (is_no_error s'.jit_status)) [
  | inr e ↦
      rw (stuck_bytes bytes s' e)
        (Grows-tables s' o (λ ok. absurd (error_of _ e (o.status_same ∙ ok))) g)
  | inl e ↦ elim (Bool-cases (ltb s'.size (u32 (s'.offset + length bytes)))) [
    | inl f ↦ rw (full_bytes bytes s' e f) (
        Grows-tables {s = record s { jit_status = not_enough_space }}
          (record s' { jit_status = not_enough_space })
          (record {
            offset_same = o.offset_same;
            size_same = o.size_same;
            buf_same = o.buf_same;
            status_same = refl;
            jumps_within = o.jumps_within;
            loads_within = o.loads_within;
            leas_within = o.leas_within;
            local_calls_within = o.local_calls_within;
            begun_still = o.begun_still;
            says_still = later (cc) (cc);
          })
          (λ bad. absurd (cc)) (Grows-error not_enough_space (cc) (later (cc) (cc)) g))
    | inr f ↦
        let n = s.offset + length bytes in
        let ok : s.jit_status ≡ no_error = sym o.status_same ∙ no_error_of _ e in
        let small' : n ≤ s.size =
          ground (arith, o.offset_same, o.size_same, g.emitting.in_buffer, g.emitting.no_wrap) in
        let wrapped : u32 (s'.offset + length bytes) ≡ n =
          omega (arith, o.offset_same, g.emitting.no_wrap) in
        rw (appended bytes s' e f, wrapped)
          (Grows-tables {s = record s { buf = copy_bytes s.buf s.offset bytes; offset = n }}
            (record s' { buf = copy_bytes s'.buf s'.offset bytes; offset = n })
            (record {
              offset_same = refl;
              size_same = o.size_same;
              buf_same = rw (o.buf_same, o.offset_same) refl;
              status_same = o.status_same;
              jumps_within = o.jumps_within;
              loads_within = o.loads_within;
              leas_within = o.leas_within;
              local_calls_within = o.local_calls_within;
              begun_still = λ a k h. omega (arith, o.begun_still a k h, o.offset_same);
              says_still = o.says_still;
            })
            (λ _ p.
              rw (o.buf_same, o.offset_same)
                (pl (copy_bytes s.buf s.offset bytes) ok (g.emitting.placed ok) p))
            (Grows-append bytes n refl ok small' g))
  ]
]
