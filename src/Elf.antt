-- ===== src/Elf.antt =====
-- The first half of `ubpf_load_elf_ex` in libs/ubpf/vm/ubpf_loader.c: the checks of the header, the
-- array of sections, the string table and the symbol table.
pub mod Laws
mod Tests
use appclick_ubpf.Prelude.{
  ℕ, zero, suc, ◌+◌, ◌*◌, ◌/◌, ◌%◌, ◌^◌, Bool, true, false, not, ◌&&◌, ◌||◌, Option, none, some,
  List, [], ◌∷◌,
}
use appclick_ubpf.Prelude.{ltb, leb, ◌==◌, ◌!=◌, if◌then◌else◌}
use appclick_ubpf.Words.{u32, u64, i64}

-- The file in memory: its bytes by their offsets, and `elf_size`.
pub record Elf : Type 0 where
  pub bytes : ℕ → ℕ
  pub size : ℕ

pub data ElfError : Type 0 where
  no_elf_header : ElfError
  wrong_magic : ElfError
  wrong_class : ElfError
  wrong_byte_order : ElfError
  wrong_version : ElfError
  wrong_os_abi : ElfError
  wrong_type : ElfError
  wrong_machine : ℕ → ElfError
  too_many_sections : ElfError
  bad_section_header : ElfError
  bad_section : ElfError
  no_string_table : ElfError
  no_symbol_table : ElfError

-- A result, `goto error`, or a read outside the file.
pub data Parsed (A : Type 0) : Type 0 where
  parsed : A → Parsed A
  rejected : ElfError → Parsed A
  crashed : Parsed A

module _ {A B : Type 0} where
  infixl 10 ◌>>=◌ ◌>>◌
  unfoldable pub ◌>>=◌ : Parsed A → (A → Parsed B) → Parsed B
  ◌>>=◌ (parsed a) f = f a
  ◌>>=◌ (rejected e) f = rejected e
  ◌>>=◌ crashed f = crashed

  abbrev pub ◌>>◌ : Parsed A → Parsed B → Parsed B
  m >> n = m >>= λ _. n

abbrev pub max_sections : ℕ
max_sections = 32

-- `bounds_check`: the offset stands for the address `base + offset`.
unfoldable pub elf_bounds_check : Elf → ℕ → ℕ → Option ℕ
elf_bounds_check elf offset size =
    if (ltb elf.size (u64 (offset + size))) || (ltb (u64 (offset + size)) offset)
    then none
    else some offset

unfoldable pub or_error : Option ℕ → ElfError → Parsed ℕ
or_error none e = rejected e
or_error (some x) e = parsed x

unfoldable pub require : Bool → ElfError → Parsed Unit
require true e = parsed tt
require false e = rejected e

-- The number in `n` bytes, the first byte lowest.
unfoldable pub number : (ℕ → ℕ) → ℕ → ℕ → ℕ
number bytes at zero = 0
number bytes at (suc n) = bytes at % 256 + 256 * number bytes (at + 1) n

-- The read of a field of `n` bytes.
unfoldable pub field : Elf → ℕ → ℕ → Parsed ℕ
field elf at n = if leb (at + n) elf.size then parsed (number elf.bytes at n) else crashed

-- The fields of `Elf64_Ehdr` that the loader goes by.
pub record Header : Type 0 where
  pub e_shoff : ℕ
  pub e_shentsize : ℕ
  pub e_shnum : ℕ

-- `section`: both pointers as offsets in the file.
pub record Section : Type 0 where
  pub shdr : ℕ
  pub contents : ℕ
  pub size : ℕ

-- The checks of the header, in their order.
unfoldable pub parse_header : Elf → Parsed Header
parse_header elf = do
  ehdr ← or_error (elf_bounds_check elf 0 64) no_elf_header
  magic ← field elf ehdr 4
  require (magic == 0x464c457f) wrong_magic
  class ← field elf (ehdr + 4) 1
  require (class == 2) wrong_class
  byte_order ← field elf (ehdr + 5) 1
  require (byte_order == 1) wrong_byte_order
  version ← field elf (ehdr + 6) 1
  require (version == 1) wrong_version
  os_abi ← field elf (ehdr + 7) 1
  require (os_abi == 0) wrong_os_abi
  type ← field elf (ehdr + 16) 2
  require (type == 1) wrong_type
  machine ← field elf (ehdr + 18) 2
  require ((machine == 0) || (machine == 247)) (wrong_machine machine)
  shnum ← field elf (ehdr + 60) 2
  require (leb shnum max_sections) too_many_sections
  shoff ← field elf (ehdr + 40) 8
  shentsize ← field elf (ehdr + 58) 2
  parsed (record { e_shoff = shoff; e_shentsize = shentsize; e_shnum = shnum })

-- The loop over the section headers: `n` are left, the first at `offset`. The check asks for the
-- size of a pointer, 8; the fields lie in 64 bytes.
unfoldable pub parse_sections : Elf → ℕ → ℕ → ℕ → Parsed (List Section)
parse_sections elf shentsize zero offset = parsed []
parse_sections elf shentsize (suc n) offset = do
  shdr ← or_error (elf_bounds_check elf offset 8) bad_section_header
  sh_offset ← field elf (shdr + 24) 8
  sh_size ← field elf (shdr + 32) 8
  contents ← or_error (elf_bounds_check elf sh_offset sh_size) bad_section
  rest ← parse_sections elf shentsize n (u64 (offset + shentsize))
  parsed (record { shdr = shdr; contents = contents; size = sh_size } ∷ rest)

-- The loop that stops at the first section of a type.
unfoldable pub find_section : Elf → ℕ → List Section → Parsed (Option Section)
find_section elf sh_type [] = parsed none
find_section elf sh_type (s ∷ rest) = do
  type ← field elf (s.shdr + 4) 4
  if type == sh_type then parsed (some s) else find_section elf sh_type rest

unfoldable pub found : Option Section → ElfError → Parsed Section
found none e = rejected e
found (some s) e = parsed s

-- What the code knows where it starts on the symbols. Both sizes are kept in an `int`.
pub record ElfTables : Type 0 where
  pub sections : List Section
  pub strtab : ℕ
  pub strtab_size : ℕ
  pub symtab : ℕ
  pub total_symbols : ℕ

unfoldable pub parse_elf : Elf → Parsed ElfTables
parse_elf elf = do
  header ← parse_header elf
  sections ← parse_sections elf header.e_shentsize header.e_shnum header.e_shoff
  strtab_at ← find_section elf 3 sections
  strtab ← found strtab_at no_string_table
  symtab_at ← find_section elf 2 sections
  symtab ← found symtab_at no_symbol_table
  parsed (record {
    sections = sections;
    strtab = strtab.contents;
    strtab_size = u32 strtab.size;
    symtab = symtab.contents;
    total_symbols = i64 (u32 symtab.size) / 24;
  })
