-- ===== src/Jit/Translate/Registers.antt =====
-- `ubpf_set_register_offset` of libs/ubpf/vm/ubpf_jit_x86_64.c gives every register of the program
-- a register of its own.
use native.Mathlib.Nat.{mod-lt}
use appclick_ubpf.Prelude.{
  ℕ, zero, suc, ◌+◌, ◌-◌, ◌%◌, ◌≤◌, ◌<◌, ◌≡◌, refl, ap, ◌∙◌, inl, inr, arith, List, [], ◌∷◌, Option,
  none, some, true, false,
}
use appclick_ubpf.Prelude.{
  length, get_elem?, set, length-set, get_elem?-set, if◌then◌else◌, ◌==◌, ltb, Bool-cases,
}
use appclick_ubpf.Words.{ℤ, pos, negsuc}
use appclick_ubpf.Jit.Translate.{or_zero, offset_index, rotate, swap, shuffle, set_register_offset}

abbrev entry : List ℕ → ℕ → ℕ
entry map i = or_zero (get_elem? map i)

-- The eleven entries of a map in another order: the new entry `i` is the old entry `source i`, and
-- `target` turns the order back.
pub record Rearranges (old new : List ℕ) : Type 0 where
  pub source : ℕ → ℕ
  pub target : ℕ → ℕ
  pub eleven : length new ≡ 11
  pub source_in : (i : ℕ) → i < 11 → source i < 11
  pub target_in : (i : ℕ) → i < 11 → target i < 11
  pub back : (i : ℕ) → i < 11 → target (source i) ≡ i
  pub forth : (i : ℕ) → i < 11 → source (target i) ≡ i
  pub moved : (i : ℕ) → i < 11 → entry new i ≡ entry old (source i)

Rearranges-refl : (map : List ℕ) → length map ≡ 11 → Rearranges map map
Rearranges-refl map h = record {
  source = λ i. i;
  target = λ i. i;
  eleven = h;
  source_in = λ i q. q;
  target_in = λ i q. q;
  back = λ i q. refl;
  forth = λ i q. refl;
  moved = λ i q. refl;
}

Rearranges-trans : {a b c : List ℕ} → Rearranges a b → Rearranges b c → Rearranges a c
Rearranges-trans {a} {b} {c} r s = record {
  source = λ i. r.source (s.source i);
  target = λ i. s.target (r.target i);
  eleven = s.eleven;
  source_in = λ i q. r.source_in _ (s.source_in i q);
  target_in = λ i q. s.target_in _ (r.target_in i q);
  back = λ i q. ap s.target (r.back _ (s.source_in i q)) ∙ s.back i q;
  forth = λ i q. ap r.source (s.forth _ (r.target_in i q)) ∙ r.forth i q;
  moved = λ i q. s.moved i q ∙ r.moved _ (s.source_in i q);
}

-- The rotation by an offset that is not negative.
rotated : List ℕ → ℕ → ℕ → ℕ → List ℕ
rotated map x zero i = []
rotated map x (suc n) i = entry map ((i + x) % 11) ∷ rotated map x n (i + 1)

rotate_pos : (map : List ℕ) (x n i : ℕ) → rotate map (pos x) n i ≡ some (rotated map x n i)
unfolding rotate offset_index rotated
rotate_pos map x zero i = refl
rotate_pos map x (suc n) i = rw (rotate_pos map x n (i + 1)) refl

length-rotated : (map : List ℕ) (x n i : ℕ) → length (rotated map x n i) ≡ n
unfolding rotated
length-rotated map x zero i = refl
length-rotated map x (suc n) i = ap suc (length-rotated map x n (i + 1))

entry-rotated :
    (map : List ℕ) (x n i k : ℕ)
    → k < n
    → entry (rotated map x n i) k ≡ entry map ((i + k + x) % 11)
unfolding rotated
entry-rotated map x zero i k h = absurd (omega arith)
entry-rotated map x (suc n) i zero h =
    let same : i + x ≡ i + 0 + x = omega arith in ap (λ (j : ℕ). entry map (j % 11)) same
entry-rotated map x (suc n) i (suc k) h =
    let same : i + 1 + k + x ≡ i + suc k + x = omega arith in
    entry-rotated map x n (i + 1) k (omega arith) ∙ ap (λ (j : ℕ). entry map (j % 11)) same

rotated-Rearranges : (map : List ℕ) (x : ℕ) → x < 11 → Rearranges map (rotated map x 11 0)
rotated-Rearranges map x h = record {
  source = λ i. (i + x) % 11;
  target = λ i. (i + 11 - x) % 11;
  eleven = length-rotated map x 11 0;
  source_in = λ i q. omega arith;
  target_in = λ i q. omega arith;
  back = λ i q. omega arith;
  forth = λ i q. omega arith;
  moved = λ i q.
      let same : 0 + i + x ≡ i + x = omega arith in
      entry-rotated map x 11 0 i q ∙ ap (λ (j : ℕ). entry map (j % 11)) same;
}

-- An index that is negative stops the loop, here or later.
rotate_stopped :
    (map : List ℕ) (x : ℤ) (n i : ℕ) → offset_index i x ≡ none → rotate map x (suc n) i ≡ none
unfolding rotate
rotate_stopped map x n i h = rw (h, rotate) refl

rotate_stopped_later :
    (map : List ℕ) (x : ℤ) (n i j : ℕ)
    → offset_index i x ≡ some j
    → rotate map x n (i + 1) ≡ none
    → rotate map x (suc n) i ≡ none
unfolding rotate
rotate_stopped_later map x n i j h later = rw (h, rotate, later) refl

first_negative : (n : ℕ) → ((n + 1) % 11 == 0) ≡ false → offset_index 0 (negsuc n) ≡ none
unfolding offset_index
first_negative n e = ground arith

first_zero : (n : ℕ) → ((n + 1) % 11 == 0) ≡ true → offset_index 0 (negsuc n) ≡ some 0
unfolding offset_index
first_zero n e = ground arith

second_negative : (n : ℕ) → ((n + 1) % 11 == 0) ≡ true → offset_index 1 (negsuc n) ≡ none
unfolding offset_index
second_negative n e = ground arith

-- With a negative offset the first or the second index is negative.
rotate_negsuc : (map : List ℕ) (n : ℕ) → rotate map (negsuc n) 11 0 ≡ none
rotate_negsuc map n = elim (Bool-cases ((n + 1) % 11 == 0)) [
  | inr e ↦ rotate_stopped map (negsuc n) 10 0 (first_negative n e)
  | inl e ↦
      rotate_stopped_later map (negsuc n) 10 0 0 (first_zero n e)
        (rotate_stopped map (negsuc n) 9 1 (second_negative n e))
]

-- The other of two places, and every other place itself.
abbrev exchanged : ℕ → ℕ → ℕ → ℕ
exchanged i j k = if i == k then j else if j == k then i else k

swap-Rearranges :
    (map : List ℕ) (i j : ℕ) → length map ≡ 11 → i < 11 → j < 11 → Rearranges map (swap map i j)
unfolding swap
swap-Rearranges map i j h p q =
    let first = length-set map j (entry map i) in
    record {
      source = exchanged i j;
      target = exchanged i j;
      eleven = length-set (set map j (entry map i)) i (entry map j) ∙ first ∙ h;
      source_in = λ k r. ground arith;
      target_in = λ k r. ground arith;
      back = λ k r. ground arith;
      forth = λ k r. ground arith;
      moved = λ k r. ground (
        arith,
        get_elem?-set (set map j (entry map i)) i k (entry map j) (omega (arith, first)),
        get_elem?-set map j k (entry map i) (omega arith),
      );
    }

shuffle-Rearranges :
    (rand_r : ℕ → ℕ × ℕ) (map : List ℕ) (seed n i : ℕ)
    → length map ≡ 11
    → i + n ≤ 10
    → Rearranges map (shuffle rand_r map seed n i)
unfolding shuffle
shuffle-Rearranges rand_r map seed zero i h p = Rearranges-refl map h
shuffle-Rearranges rand_r map seed (suc n) i h p =
    let room : 0 < 11 - i = omega arith in
    let j = i + (rand_r seed).0 % (11 - i) in
    let one =
      swap-Rearranges map i j h (omega arith) (omega (arith, mod-lt (rand_r seed).0 room)) in
    Rearranges-trans one
      (shuffle-Rearranges rand_r (swap map i j) (rand_r seed).1 n (i + 1) one.eleven (omega arith))

-- What the function leaves of the map, if it does not read before the array.
abbrev pub Rearranged : List ℕ → ℤ → Option (List ℕ) → Type 0
Rearranged old (pos x) after = (new : List ℕ) × (after ≡ some new) × Rearranges old new
Rearranged old (negsuc n) after = after ≡ none

-- With an offset that is not negative, `set_register_offset` puts the eleven entries of a map in
-- another order, whatever the numbers of `rand_r` are: no register is lost and none is used twice.
-- With a negative offset it always reads before the array.
pub set_register_offset-Rearranged :
    (rand_r : ℕ → ℕ × ℕ) (map : List ℕ) (x : ℤ)
    → length map ≡ 11
    → Rearranged map x (set_register_offset rand_r map x)
unfolding set_register_offset
set_register_offset-Rearranged rand_r map (pos x) h = elim (Bool-cases (ltb x 11)) [
  | inl y ↦
      rw (y, set_register_offset)
        (rotated map x 11 0, rotate_pos map x 11 0, rotated-Rearranges map x (ground (arith, y)))
  | inr n ↦
      rw (n, set_register_offset)
        (shuffle rand_r map x 10 0, refl, shuffle-Rearranges rand_r map x 10 0 h (omega arith))
]
set_register_offset-Rearranged rand_r map (negsuc n) h = rotate_negsuc map n
