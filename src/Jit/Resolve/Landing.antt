-- ===== src/Jit/Resolve/Landing.antt =====
-- What the patching of libs/ubpf/vm/ubpf_jit_x86_64.c leaves at the place of each relocation.
pub mod All
use mathlib.Core.Path.{subst}
use appclick_ubpf.Prelude.{
  ℕ, zero, suc, ◌+◌, ◌-◌, ◌/◌, ◌%◌, ◌^◌, ◌≤◌, ◌<◌, ◌≡◌, ◌≢◌, refl, sym, ap, ◌∙◌, ◌⊎◌, inl, inr,
  Bool, true, false, not, List, [], ◌∷◌,
}
use appclick_ubpf.Prelude.{arith, if◌then◌else◌, ◌==◌, ◌!=◌, length, update, Bool-cases}
use appclick_ubpf.Words.{u32}
use appclick_ubpf.Jit.State.{
  JitState, PatchableRelative, target_pc_external_dispatcher, target_load_helper_table, Emit,
  modify, pure, gets, ◌>>=◌,
}
use appclick_ubpf.Jit.State.Keeps.{Keeps}
use appclick_ubpf.Jit.Emit.{le_bytes, copy_bytes, is_int8}
use appclick_ubpf.Jit.Emit.Apart.{
  tables_of, Table, jump, load, lea, local_call, entry, count, span, last, width, Apart,
}
use appclick_ubpf.Jit.Emit.Grows.{last-le, ArePlaced, copy_bytes-outside}
use appclick_ubpf.Jit.Resolve.{
  jump_target_loc, relative, patch, each, resolve_jump, resolve_local_call, resolve_load,
  resolve_lea, resolve_patchable_relatives,
}
use appclick_ubpf.Jit.Resolve.Safety.{
  Patches, Patches-refl, length-le_bytes, each-Keeps, resolve_jump-Patches,
  resolve_local_call-Patches, resolve_load-Patches, resolve_lea-Patches,
}

-- The `n` bytes from `loc` on.
unfoldable pub bytes_at : (ℕ → ℕ) → ℕ → ℕ → List ℕ
bytes_at buf loc zero = []
bytes_at buf loc (suc n) = buf loc ∷ bytes_at buf (loc + 1) n

pub bytes_at-same :
    (f g : ℕ → ℕ) (loc n : ℕ)
    → ((i : ℕ) → loc ≤ i → i < loc + n → f i ≡ g i)
    → bytes_at f loc n ≡ bytes_at g loc n
unfolding bytes_at
bytes_at-same f g loc zero h = refl
bytes_at-same f g loc (suc n) h =
    rw (h loc (omega arith) (omega arith)) (
      ap (λ t. g loc ∷ t)
        (bytes_at-same f g (loc + 1) n (λ i p q. h i (omega arith) (omega arith))))

-- A copy puts its bytes there, and no others change.
bytes_at-copy_bytes :
    (buf : ℕ → ℕ) (loc : ℕ) (xs : List ℕ) → bytes_at (copy_bytes buf loc xs) loc (length xs) ≡ xs
unfolding bytes_at copy_bytes
bytes_at-copy_bytes buf loc [] = refl
bytes_at-copy_bytes buf loc (x ∷ xs) = rw (bytes_at-copy_bytes (update buf loc x) (loc + 1) xs) (
    ap (λ t. t ∷ xs)
      (copy_bytes-outside (update buf loc x) (loc + 1) xs loc (inl (omega arith)) ∙ ground arith))

pub stored_word :
    (code : ℕ → ℕ) (loc value : ℕ)
    → bytes_at (copy_bytes code loc (le_bytes 8 value)) loc 8 ≡ le_bytes 8 value
stored_word code loc value =
    subst (λ n. bytes_at (copy_bytes code loc (le_bytes 8 value)) loc n ≡ le_bytes 8 value)
      (length-le_bytes 8 value) (bytes_at-copy_bytes code loc (le_bytes 8 value))

bytes_at-elsewhere :
    (buf : ℕ → ℕ) (loc n at : ℕ) (xs : List ℕ)
    → (loc + n ≤ at) ⊎ (at + length xs ≤ loc)
    → bytes_at (copy_bytes buf at xs) loc n ≡ bytes_at buf loc n
bytes_at-elsewhere buf loc n at xs (inl h) =
    bytes_at-same _ _ loc n (λ i p q. copy_bytes-outside buf at xs i (inl (omega arith)))
bytes_at-elsewhere buf loc n at xs (inr h) =
    bytes_at-same _ _ loc n (λ i p q. copy_bytes-outside buf at xs i (inr (omega arith)))

-- The displacement of a relocation, from the state before the patching.
abbrev pub displacement : JitState → Table → ℕ → ℕ
displacement s jump k =
    relative (jump_target_loc s (s.jumps k)) (s.jumps k).offset_loc (width (s.jumps k))
displacement s load k = relative s.dispatcher_loc (s.loads k).offset_loc 4
displacement s lea k = relative s.helper_table_loc (s.leas k).offset_loc 4
displacement s local_call k =
    relative (relative (s.pc_locs (s.local_calls k).target_pc) (s.local_calls k).offset_loc 4)
      s.bpf_function_prolog_size 0

-- What one round of the patching does to the buffer.
abbrev pub patched_buf : JitState → Table → ℕ → (ℕ → ℕ) → ℕ → ℕ
patched_buf s a k buf =
    copy_bytes buf (entry (tables_of s) a k).offset_loc
      (le_bytes (span a (entry (tables_of s) a k)) (displacement s a k))

-- A body that patches its entry where it returns true.
abbrev pub IsPatcher : JitState → Table → (ℕ → Emit Bool) → Type 0
IsPatcher s₀ a body =
    (k : ℕ) (s : JitState)
    → Patches s₀ s
    → (body k s).0 ≡ true
    → (body k s).1.buf ≡ patched_buf s₀ a k s.buf

-- It is enough to look at the states that differ in the buffer.
by_buf :
    (s₀ : JitState) (a : Table) (body : ℕ → Emit Bool)
    → ((k : ℕ) (buf : ℕ → ℕ)
        → (body k (record s₀ { buf = buf })).0 ≡ true
        → (body k (record s₀ { buf = buf })).1.buf ≡ patched_buf s₀ a k buf)
    → IsPatcher s₀ a body
by_buf s₀ a body h k s p =
    subst (λ (t : JitState). (body k t).0 ≡ true → (body k t).1.buf ≡ patched_buf s₀ a k s.buf)
      (sym p.only_buf) (h k s.buf)

module _ (s₀ : JitState) where
  pub target-buf :
      (buf : ℕ → ℕ) (p : PatchableRelative)
      → jump_target_loc (record s₀ { buf = buf }) p ≡ jump_target_loc s₀ p
  unfolding jump_target_loc
  target-buf buf p = refl

  pub jump-IsPatcher : IsPatcher s₀ jump resolve_jump
  unfolding resolve_jump ◌>>=◌ gets pure patch modify is_int8 copy_bytes relative le_bytes
      jump_target_loc
  jump-IsPatcher = by_buf s₀ jump resolve_jump (λ k buf won.
      let here = target-buf buf (s₀.jumps k) in
      elim (Bool-cases (s₀.jumps k).near) [
        | inr far ↦ rw (far, here) refl
        | inl close ↦
            elim (Bool-cases
              (is_int8 (relative (jump_target_loc s₀ (s₀.jumps k)) (s₀.jumps k).offset_loc 1))) [
                | inl fits ↦ rw (close, here, fits) refl
                | inr wide ↦ absurd (cc (rw (close, here, wide) at won))
              ]
      ])

  pub local_call-IsPatcher : IsPatcher s₀ local_call resolve_local_call
  unfolding resolve_local_call ◌>>=◌ gets pure patch modify
  local_call-IsPatcher = by_buf s₀ local_call resolve_local_call (λ k buf won. refl)

  pub load-IsPatcher : IsPatcher s₀ load resolve_load
  unfolding resolve_load ◌>>=◌ gets pure patch modify
  load-IsPatcher = by_buf s₀ load resolve_load (λ k buf won.
      elim (Bool-cases ((s₀.loads k).target_pc == target_pc_external_dispatcher)) [
        | inl y ↦ rw y refl
        | inr n ↦ absurd (cc (rw n at won))
      ])

  pub lea-IsPatcher : IsPatcher s₀ lea resolve_lea
  unfolding resolve_lea ◌>>=◌ gets pure patch modify
  lea-IsPatcher = by_buf s₀ lea resolve_lea (λ k buf won.
      elim (Bool-cases ((s₀.leas k).target_pc == target_load_helper_table)) [
        | inl y ↦ rw y refl
        | inr n ↦ absurd (cc (rw n at won))
      ])

-- A relocation's bytes are its displacement.
abbrev pub Lands : JitState → Table → ℕ → (ℕ → ℕ) → Type 0
Lands s a k buf =
    bytes_at buf (entry (tables_of s) a k).offset_loc (span a (entry (tables_of s) a k))
    ≡ le_bytes (span a (entry (tables_of s) a k)) (displacement s a k)

module _ (s₀ : JitState) (placed : ArePlaced s₀) where
  -- A round makes its own relocation land, and leaves the others.
  Lands-here : (a : Table) (k : ℕ) (buf : ℕ → ℕ) → Lands s₀ a k (patched_buf s₀ a k buf)
  Lands-here a k buf =
      let n = span a (entry (tables_of s₀) a k) in
      let d = displacement s₀ a k in
      subst
        (λ (m : ℕ).
          bytes_at (patched_buf s₀ a k buf) (entry (tables_of s₀) a k).offset_loc m ≡ le_bytes n d)
        (length-le_bytes n d)
        (bytes_at-copy_bytes buf (entry (tables_of s₀) a k).offset_loc (le_bytes n d))

  Lands-still :
      (a b : Table) (k n : ℕ) (buf : ℕ → ℕ)
      → k < count (tables_of s₀) a
      → n < count (tables_of s₀) b
      → ¬ ((a ≡ b) × (k ≡ n))
      → Lands s₀ a k buf
      → Lands s₀ a k (patched_buf s₀ b n buf)
  Lands-still a b k n buf hk hn ne old =
      bytes_at-elsewhere buf _ _ _ _ (elim (placed.apart a b k n hk hn ne) [
        | inl before ↦ inl before
        | inr after ↦
            inr
              (rw (length-le_bytes (span b (entry (tables_of s₀) b n)) (displacement s₀ b n)) after)
      ])
      ∙ old

  module _ (a : Table) (body : ℕ → Emit Bool) (patches : IsPatcher s₀ a body)
      (kept : (k : ℕ) → k < count (tables_of s₀) a → Keeps (Patches s₀) (body k)) where
    pub loop-Lands :
        (n : ℕ) (s : JitState)
        → n ≤ count (tables_of s₀) a
        → Patches s₀ s
        → (each body n s).0 ≡ true
        → ((k : ℕ) → k < n → Lands s₀ a k (each body n s).1.buf)
          × ((b : Table) (k : ℕ)
              → k < count (tables_of s₀) b
              → b ≢ a
              → Lands s₀ b k s.buf
              → Lands s₀ b k (each body n s).1.buf)
    unfolding each ◌>>=◌ pure
    loop-Lands zero s fits p won = (λ k h. absurd (omega arith), λ b k h ne old. old)
    loop-Lands (suc n) s fits p won = elim (Bool-cases (each body n s).0) [
      | inr lost ↦ absurd (cc (rw lost at won))
      | inl yes' ↦
          let s' = (each body n s).1 in
          let won' : (body n s').0 ≡ true = rw yes' at won in
          let p' = (each-Keeps body n (λ k h. kept k (omega arith))).at s p in
          let (mine, others) = loop-Lands n s (omega arith) p yes' in
          rw (yes', patches n s' p' won')
            (
              (λ k h. elim (Bool-cases (k == n)) [
                | inl same ↦
                    subst (λ (m : ℕ). Lands s₀ a m (patched_buf s₀ a n s'.buf))
                      (ground (arith, same)) (Lands-here a n s'.buf)
                | inr other ↦
                    Lands-still a a k n s'.buf (omega arith) (omega arith)
                      (λ (_, e). ground (arith, other, e)) (mine k (ground (arith, other)))
              ]),
              λ b k h ne old.
                  Lands-still b a k n s'.buf h (omega arith) (λ (e, _). ne e) (others b k h ne old),
            )
    ]
