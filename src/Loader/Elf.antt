-- ===== src/Loader/Elf.antt =====
-- bpfloader/UprobeStatsBpfLoad.cpp: the headers and the sections of an ELF file. The layout of the
-- structures is that of <elf.h>.
pub mod Image
pub mod Headers
pub mod RoundTrip
use platform_packages_module.Prelude.{
  ℕ, zero, suc, ◌+◌, ◌*◌, ◌/◌, ◌%◌, ◌^◌, List, [], ◌∷◌, ◌++◌, Option, none, some, Bool, true, false,
  not, ◌&&◌, ◌==◌, ltb, leb, if◌then◌else◌, Text, length, take, drop, replicate, get_elem?, le, ℤ,
  pos, negsuc,
}
use platform_packages_module.Loader.Stream.{
  Reader, Answer, value, code, outside, ◌>>=◌, pure, fail, undefined, try, read_at,
}

-- The number that `n` bytes at an offset stand for.
abbrev pub field : (offset n : ℕ) → List ℕ → ℕ
field offset n bs = le (take n (drop offset bs))

-- `Elf64_Ehdr`, the fields that are read.
pub record Ehdr : Type 0 where
  pub e_shoff : ℕ
  pub e_shentsize : ℕ
  pub e_shnum : ℕ
  pub e_shstrndx : ℕ

-- `Elf64_Shdr`, the fields that are read.
pub record Shdr : Type 0 where
  pub sh_name : ℕ
  pub sh_type : ℕ
  pub sh_offset : ℕ
  pub sh_size : ℕ

-- `sizeof(Elf64_Ehdr)` and `sizeof(Elf64_Shdr)`.
abbrev pub header_size : ℕ
header_size = 64

abbrev pub ehdr_of : List ℕ → Ehdr
ehdr_of bs = record {
  e_shoff = field 40 8 bs;
  e_shentsize = field 58 2 bs;
  e_shnum = field 60 2 bs;
  e_shstrndx = field 62 2 bs;
}

abbrev pub shdr_of : List ℕ → Shdr
shdr_of bs = record {
  sh_name = field 0 4 bs;
  sh_type = field 4 4 bs;
  sh_offset = field 24 8 bs;
  sh_size = field 32 8 bs;
}

-- `n` structures of a size, one after another.
unfoldable pub structs : {A : Type 0} → (List ℕ → A) → (size n : ℕ) → List ℕ → List A
structs f size zero bs = []
structs f size (suc n) bs = f (take size bs) ∷ structs f size n (drop size bs)

-- `readElfHeader`
unfoldable pub read_elf_header : Reader Ehdr
read_elf_header = do bs ← read_at 0 header_size (negsuc 0); pure (ehdr_of bs)

-- `readSectionHeadersAll`: the entries are read by their size in the file into a table of structures
-- that is zero. Entries that are larger do not fit. The number of bytes is an `int`; what comes of a
-- number from 2 ^ 31 on is undefined. (-ENOMEM is -12.)
unfoldable pub read_section_headers_all : Reader (List Shdr)
unfolding structs
read_section_headers_all = do
  eh ← read_elf_header
  bs ←
      (if leb (2 ^ 31) (eh.e_shnum * eh.e_shentsize)
        then (do nothing ← read_at eh.e_shoff 0 (negsuc 0); undefined)
        else read_at eh.e_shoff (eh.e_shnum * eh.e_shentsize) (negsuc 11))
  if ltb (eh.e_shnum * header_size) (length bs)
      then undefined
      else pure
          (structs shdr_of header_size eh.e_shnum (bs ++ replicate (eh.e_shnum * header_size) 0))

-- The bytes of a section.
unfoldable pub read_section : Shdr → Reader (List ℕ)
read_section sh = read_at sh.sh_offset sh.sh_size (negsuc 0)

-- `readSectionByIdx`
unfoldable pub read_section_by_idx : ℕ → Reader (List ℕ)
read_section_by_idx id = do
  table ← read_section_headers_all
  elim (get_elem? table id) [ none ↦ undefined | some sh ↦ read_section sh ]

-- `readSectionHeaderStrtab`
unfoldable pub read_section_header_strtab : Reader (List ℕ)
read_section_header_strtab = do eh ← read_elf_header; read_section_by_idx eh.e_shstrndx

-- The C string at the start of some bytes; `none` if it has no end there.
unfoldable pub c_str : List ℕ → Option Text
c_str [] = none
c_str (b ∷ bs) = if b == 0 then some [] else elim (c_str bs) [ none ↦ none | some t ↦ some (b ∷ t) ]

-- `getSymName`. The offset is an `int`: one from 2 ^ 31 on is negative, and so is not refused.
unfoldable pub get_sym_name : ℕ → Reader Text
unfolding c_str
get_sym_name name_off = do
  strtab ← read_section_header_strtab
  if leb (2 ^ 31) name_off
      then undefined
      else if leb (length strtab) name_off
      then fail (negsuc 0)
      else elim (c_str (drop name_off strtab)) [ none ↦ undefined | some name ↦ pure name ]

-- `!strcmp(secname, name)`, for a section's name that stands in some bytes; `none` if it leaves them.
unfoldable pub same_name : List ℕ → Text → Option Bool
same_name [] name = none
same_name (b ∷ bs) [] = some (b == 0)
same_name (b ∷ bs) (c ∷ cs) = if b == c then same_name bs cs else some false

unfoldable pub is_empty_table : List ℕ → Bool
is_empty_table [] = true
is_empty_table (_ ∷ _) = false

-- The test of one section in `readSectionByName`: an empty table has no names.
unfoldable pub has_name : (strtab : List ℕ) → Shdr → Text → Option Bool
has_name strtab sh name =
    if is_empty_table strtab && (sh.sh_name == 0)
    then some false
    else same_name (drop sh.sh_name strtab) name

-- The loop of `readSectionByName`.
unfoldable pub find_section : (strtab : List ℕ) (name : Text) → List Shdr → Reader (List ℕ)
find_section strtab name [] = fail (negsuc 1)
find_section strtab name (sh ∷ shs) = elim (has_name strtab sh name) [
  | none ↦ undefined
  | some true ↦ read_section sh
  | some false ↦ find_section strtab name shs
]

-- `readSectionByName`
unfoldable pub read_section_by_name : Text → Reader (List ℕ)
read_section_by_name name = do
  table ← read_section_headers_all
  strtab ← read_section_header_strtab
  find_section strtab name table

-- The value of `readSectionUint` for the section's bytes.
unfoldable pub decode_uint : List ℕ → (default : ℕ) → ℕ
decode_uint bs default =
    if ltb (length bs) 4
    then default
    else ((field 3 1 bs * 256 + field 2 1 bs) * 256 + field 1 1 bs) * 256 + field 0 1 bs

-- `readSectionUint`
unfoldable pub read_section_uint : Text → (default : ℕ) → Reader ℕ
read_section_uint name default = do
  answer ← try (read_section_by_name name)
  elim answer [
    | value bs ↦ pure (decode_uint bs default)
    | code c ↦ pure default
    | outside ↦ undefined
  ]

-- The loop of `readSectionByType`.
unfoldable pub find_section_of_type : (type : ℕ) → List Shdr → Reader (List ℕ)
find_section_of_type type [] = fail (negsuc 1)
find_section_of_type type (sh ∷ shs) =
    if sh.sh_type == type then read_section sh else find_section_of_type type shs

-- `readSectionByType`
unfoldable pub read_section_by_type : ℕ → Reader (List ℕ)
read_section_by_type type = do table ← read_section_headers_all; find_section_of_type type table
