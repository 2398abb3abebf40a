-- ===== src/Elf/Laws.antt =====
-- What the checks of libs/ubpf/vm/ubpf_loader.c on the header and the sections are worth.
use mathlib.Core.Path.{subst}
use native.Mathlib.Numerals.{unary_clauses}
use appclick_ubpf.Prelude.{
  ℕ, zero, suc, ◌+◌, ◌*◌, ◌%◌, ◌^◌, ◌≤◌, ◌<◌, ◌≡◌, refl, ap, inl, inr, Bool, true, false, ◌||◌,
  arith, Option, none, some, List, [], ◌∷◌,
}
use appclick_ubpf.Prelude.{some-injective, ltb, leb, ◌==◌, length, Bool-cases}
use appclick_ubpf.Words.{u32, u64, i64}
use appclick_ubpf.Elf.{
  Elf, ElfError, bad_section_header, bad_section, no_elf_header, no_string_table, no_symbol_table,
  Parsed, parsed, rejected, crashed, ◌>>=◌, max_sections, elf_bounds_check, or_error, require,
  number, field, Header, Section, parse_header, parse_sections, find_section, found, ElfTables,
  parse_elf,
}

-- `P` of a result, and `C` where there was a read outside the file.
abbrev pub Outcome : {A : Type 0} → Type 0 → (A → Type 0) → Parsed A → Type 0
Outcome C P (parsed a) = P a
Outcome C P (rejected e) = Unit
Outcome C P crashed = C

pub record Meets {A : Type 0} (C : Type 0) (P : A → Type 0) (m : Parsed A) : Type 0 where
  pub outcome : Outcome C P m

module _ {A B : Type 0} {C : Type 0} {P : A → Type 0} {Q : B → Type 0} where
  Meets-bind :
      (m : Parsed A) (f : A → Parsed B)
      → Meets C P m
      → ((a : A) → m ≡ parsed a → P a → Meets C Q (f a))
      → Meets C Q (m >>= f)
  unfolding ◌>>=◌
  Meets-bind (parsed a) f h k = k a refl h.outcome
  Meets-bind (rejected e) f h k = record { outcome = tt }
  Meets-bind crashed f h k = record { outcome = h.outcome }

module _ {A : Type 0} {C D : Type 0} {P : A → Type 0} where
  Meets-crash : (C → D) → (m : Parsed A) → Meets C P m → Meets D P m
  Meets-crash f (parsed a) h = record { outcome = h.outcome }
  Meets-crash f (rejected e) h = record { outcome = tt }
  Meets-crash f crashed h = record { outcome = f h.outcome }

module _ {A : Type 0} {C : Type 0} {P : A → Type 0} where
  Meets-parsed : (a : A) → P a → Meets C P (parsed a)
  Meets-parsed a h = record { outcome = h }

-- What `bounds_check` promises of the offset that it gives.
abbrev InBounds : Elf → ℕ → ℕ → ℕ → Type 0
InBounds elf offset size at =
    (at ≡ offset) × (u64 (offset + size) ≤ elf.size) × (offset ≤ u64 (offset + size))

abbrev IsField : Elf → ℕ → ℕ → ℕ → Type 0
IsField elf at n x = (at + n ≤ elf.size) × (x ≡ number elf.bytes at n)

module _ {C : Type 0} where
  bounds-Meets :
      (elf : Elf) (offset size : ℕ) (e : ElfError)
      → Meets C (InBounds elf offset size) (or_error (elf_bounds_check elf offset size) e)
  unfolding elf_bounds_check or_error
  bounds-Meets elf offset size e =
      elim (Bool-cases
        ((ltb elf.size (u64 (offset + size))) || (ltb (u64 (offset + size)) offset))) [
          | inl y ↦ rw y (record { outcome = tt })
          | inr n ↦ rw n (record { outcome = (refl, ground (arith, n), ground (arith, n)) })
        ]

  require-Meets : (b : Bool) (e : ElfError) → Meets C (λ _. b ≡ true) (require b e)
  unfolding require
  require-Meets true e = record { outcome = refl }
  require-Meets false e = record { outcome = tt }

  field-Meets :
      (elf : Elf) (at n : ℕ) → (elf.size < at + n → C) → Meets C (IsField elf at n) (field elf at n)
  unfolding field
  field-Meets elf at n outside = elim (Bool-cases (leb (at + n) elf.size)) [
    | inl y ↦ rw y (record { outcome = (ground (arith, y), refl) })
    | inr far ↦ rw far (record { outcome = outside (ground (arith, far)) })
  ]

byte_first : (b n m : ℕ) → n < m → b % 256 + 256 * n < 256 * m
byte_first b n m h = omega arith

number-lt : (bytes : ℕ → ℕ) (at n : ℕ) → number bytes at n < 256 ^ n
unfolding number
number-lt bytes at zero = omega arith
number-lt bytes at (suc n) =
    simp unary_clauses (ground (arith, byte_first (bytes at) _ _ (number-lt bytes (at + 1) n)))

-- A section whose header up to the size, and whose contents, lie in the file.
pub record InFile (elf : Elf) (s : Section) : Type 0 where
  pub header_in_file : s.shdr + 40 ≤ elf.size
  pub contents_in_file : s.contents + s.size ≤ elf.size

abbrev pub AllInFile : Elf → List Section → Type 0
AllInFile elf [] = Unit
AllInFile elf (s ∷ rest) = InFile elf s × AllInFile elf rest

-- One of `n` section headers, the first at `offset`, has its first eight bytes in the file, and the
-- forty that are read not all.
pub data CutShort (elf : Elf) (shentsize : ℕ) : ℕ → ℕ → Type 0 where
  here :
      {n offset : ℕ}
      → offset + 8 ≤ elf.size
      → elf.size < offset + 40
      → CutShort elf shentsize (suc n) offset
  later :
      {n offset : ℕ}
      → CutShort elf shentsize n (u64 (offset + shentsize))
      → CutShort elf shentsize (suc n) offset

not_wrapped :
    (a b size : ℕ) → a < 2 ^ 64 → b < 2 ^ 64 → u64 (a + b) ≤ size → a ≤ u64 (a + b) → a + b ≤ size
not_wrapped a b size p q r s = omega arith

begins_in :
    (offset size : ℕ) → u64 (offset + 8) ≤ size → offset ≤ u64 (offset + 8) → offset + 8 ≤ size
begins_in offset size p q = omega arith

IsField-lt : (elf : Elf) (at x : ℕ) → IsField elf at 8 x → x < 2 ^ 64
IsField-lt elf at x f = omega (arith, f.1, number-lt elf.bytes at 8)

parse_sections-Meets :
    (elf : Elf) (shentsize n offset : ℕ)
    → Meets
        (CutShort elf shentsize n offset)
        (λ ss. AllInFile elf ss × (length ss ≡ n))
        (parse_sections elf shentsize n offset)
unfolding parse_sections
parse_sections-Meets elf shentsize zero offset = Meets-parsed [] (tt, refl)
parse_sections-Meets elf shentsize (suc n) offset =
    Meets-bind _ _ (bounds-Meets elf offset 8 bad_section_header) (λ shdr _ begins.
      Meets-bind _ _
        (field-Meets elf (shdr + 24) 8
          (λ far. here (begins_in offset elf.size begins.1 begins.2) (omega (arith, begins.0))))
        (λ sh_offset _ a.
          Meets-bind _ _
            (field-Meets elf (shdr + 32) 8
              (λ far. here (begins_in offset elf.size begins.1 begins.2) (omega (arith, begins.0))))
            (λ sh_size _ b.
              Meets-bind _ _ (bounds-Meets elf sh_offset sh_size bad_section) (λ contents _ c.
                Meets-bind _ _
                  (Meets-crash later _
                    (parse_sections-Meets elf shentsize n (u64 (offset + shentsize))))
                  (λ rest _ r. Meets-parsed _ (
                    (
                      record {
                        header_in_file = omega (arith, b.0);
                        contents_in_file = omega (
                          arith,
                          c.0,
                          not_wrapped sh_offset sh_size elf.size (IsField-lt elf _ _ a)
                              (IsField-lt elf _ _ b) c.1 c.2,
                        );
                      },
                      r.0,
                    ),
                    ap suc r.1,
                  ))))))

find_section-Meets :
    {C : Type 0} (elf : Elf) (sh_type : ℕ) (ss : List Section)
    → AllInFile elf ss
    → Meets C
        (λ found_at. (s : Section) → found_at ≡ some s → InFile elf s)
        (find_section elf sh_type ss)
unfolding find_section
find_section-Meets elf sh_type [] h = Meets-parsed none (λ s e. absurd (cc))
find_section-Meets elf sh_type (s ∷ rest) (h, hs) =
    Meets-bind _ _
      (field-Meets elf (s.shdr + 4) 4 (λ far. absurd (omega (arith, h.header_in_file))))
      (λ type _ f. elim (Bool-cases (type == sh_type)) [
        | inl y ↦ rw y (Meets-parsed (some s) (λ s' e. subst (InFile elf) (some-injective e) h))
        | inr n ↦ rw n (find_section-Meets elf sh_type rest hs)
      ])

module _ {B : Type 0} {C : Type 0} {Q : B → Type 0} where
  -- A field in the file that is tested.
  field_tested :
      (elf : Elf) (at n : ℕ) (test : ℕ → Bool) (e : ℕ → ElfError) (k : ℕ → Parsed B)
      → at + n ≤ elf.size
      → ((x : ℕ) → test x ≡ true → Meets C Q (k x))
      → Meets C Q (field elf at n >>= λ x. (require (test x) (e x) >>= λ _. k x))
  field_tested elf at n test e k inside rest =
      Meets-bind _ _ (field-Meets elf at n (λ far. absurd (omega arith)))
        (λ x _ f. Meets-bind _ _ (require-Meets (test x) (e x)) (λ _ _ t. rest x t))

parse_header-Meets :
    {C : Type 0} (elf : Elf) → Meets C (λ h. h.e_shnum ≤ max_sections) (parse_header elf)
unfolding parse_header
parse_header-Meets {C} elf =
    Meets-bind _ _ (bounds-Meets elf 0 64 no_elf_header) (λ ehdr _ (at_start, fits, _).
      field_tested elf _ 4 _ _ _ (omega arith) (λ _ _.
        field_tested elf _ 1 _ _ _ (omega arith) (λ _ _.
          field_tested elf _ 1 _ _ _ (omega arith) (λ _ _.
            field_tested elf _ 1 _ _ _ (omega arith) (λ _ _.
              field_tested elf _ 1 _ _ _ (omega arith) (λ _ _.
                field_tested elf _ 2 _ _ _ (omega arith) (λ _ _.
                  field_tested elf _ 2 _ _ _ (omega arith) (λ _ _.
                    field_tested elf _ 2 _ _ _ (omega arith) (λ shnum few.
                      Meets-bind _ _ (field-Meets elf _ 8 (λ far. absurd (omega arith))) (λ _ _ _.
                        Meets-bind _ _ (field-Meets elf _ 2 (λ far. absurd (omega arith)))
                          (λ _ _ _. Meets-parsed _ (ground (arith, few)))))))))))))

-- What `parse_elf` gives.
pub record IsWellPlaced (elf : Elf) (t : ElfTables) : Type 0 where
  pub few : length t.sections ≤ max_sections
  pub sections_in_file : AllInFile elf t.sections
  pub strings_in_file : t.strtab + t.strtab_size ≤ elf.size
  pub symbols_in_file : t.symtab + 24 * t.total_symbols ≤ elf.size

-- The file names a section header whose first eight bytes lie in it, and whose first forty do not.
pub record NamesCutShort (elf : Elf) : Type 0 where
  pub header : Header
  pub is_header : parse_header elf ≡ parsed header
  pub cut_short : CutShort elf header.e_shentsize header.e_shnum header.e_shoff

found-Meets :
    {C : Type 0} (elf : Elf) (o : Option Section) (e : ElfError)
    → ((s : Section) → o ≡ some s → InFile elf s)
    → Meets C (InFile elf) (found o e)
unfolding found
found-Meets elf none e h = record { outcome = tt }
found-Meets elf (some s) e h = Meets-parsed s (h s refl)

i64_small : (n : ℕ) → n < 2 ^ 31 → i64 (u32 n) ≡ n
unfolding i64
i64_small n h = ground (arith, h)

-- For a file of less than 2 ^ 31 bytes: where the code gets to the symbols, there are at most 32
-- sections, and the contents of all of them, the string table and every symbol lie in the file. It
-- reads outside the file only where the header names a section header whose first eight bytes lie in
-- the file, and whose first forty, up to the size of the section, do not.
pub parse_elf-IsWellPlaced :
    (elf : Elf) → elf.size < 2 ^ 31 → Meets (NamesCutShort elf) (IsWellPlaced elf) (parse_elf elf)
unfolding parse_elf
parse_elf-IsWellPlaced elf small = Meets-bind _ _ (parse_header-Meets elf) (λ h is few.
    Meets-bind _ _
      (Meets-crash (λ c. record { header = h; is_header = is; cut_short = c }) _
        (parse_sections-Meets elf h.e_shentsize h.e_shnum h.e_shoff))
      (λ ss _ placed. Meets-bind _ _ (find_section-Meets elf 3 ss placed.0) (λ strtab_at _ there.
        Meets-bind _ _ (found-Meets elf strtab_at no_string_table there) (λ strtab _ str.
          Meets-bind _ _ (find_section-Meets elf 2 ss placed.0) (λ symtab_at _ there'.
            Meets-bind _ _ (found-Meets elf symtab_at no_symbol_table there') (λ symtab _ sym.
              Meets-parsed _ (record {
                few = omega (arith, few, placed.1);
                sections_in_file = placed.0;
                strings_in_file = omega (arith, str.contents_in_file);
                symbols_in_file = omega (
                  arith,
                  sym.contents_in_file,
                  i64_small symtab.size (omega (arith, sym.contents_in_file)),
                );
              })))))))
