-- ===== src/Elf/Tests.antt =====
-- Runs of the first half of `ubpf_load_elf_ex` in libs/ubpf/vm/ubpf_loader.c.
use appclick_ubpf.Prelude.{ℕ, ◌≡◌, refl, arith, [], ◌∷◌, update}
use appclick_ubpf.Elf.{
  Elf, parsed, crashed, parse_elf, parse_header, parse_sections, find_section, found, number, field,
  require, or_error, elf_bounds_check, ◌>>=◌,
}
use appclick_ubpf.Words.{i64}
use appclick_ubpf.Elf.Laws.{Meets, NamesCutShort, IsWellPlaced, parse_elf-IsWellPlaced}

-- A header with one section header, of 64 bytes, at offset 64.
abbrev header_bytes : ℕ → ℕ
header_bytes =
    update
      (update
        (update
          (update
            (update
              (update
                (update
                  (update (update (update (update (update (λ _. 0) 0 127) 1 69) 2 76) 3 70) 4 2) 5
                  1)
                6 1)
              16 1)
            18 247)
          40 64)
        58 64)
      60 1

abbrev cut_short : Elf
cut_short = record { bytes = header_bytes; size = 72 }

-- A file that ends eight bytes into its section header.
cut_short-crashes : parse_elf cut_short ≡ crashed
unfolding parse_elf parse_header parse_sections number field require or_error elf_bounds_check ◌>>=◌
cut_short-crashes = refl

-- A string table of one byte and a symbol table of one symbol, with their headers.
abbrev two_sections : Elf
two_sections = record {
  bytes =
      update (update (update (update (update (update header_bytes 60 2) 68 3) 96 1) 132 2) 152 192)
        160 24;
  size = 216;
}

two_sections-parse :
    parse_elf two_sections
    ≡ parsed (record {
      sections =
          record { shdr = 64; contents = 0; size = 1 }
          ∷ record { shdr = 128; contents = 192; size = 24 }
          ∷ [];
      strtab = 0;
      strtab_size = 1;
      symtab = 192;
      total_symbols = 1;
    })
unfolding parse_elf parse_header parse_sections find_section found number field require or_error
    elf_bounds_check ◌>>=◌ i64
two_sections-parse = refl

parse_elf-IsWellPlaced_example :
    Meets (NamesCutShort two_sections) (IsWellPlaced two_sections) (parse_elf two_sections)
parse_elf-IsWellPlaced_example = parse_elf-IsWellPlaced two_sections (omega arith)
