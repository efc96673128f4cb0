-- ===== src/Loader/Symbols.antt =====
-- bpfloader/UprobeStatsBpfLoad.cpp: the symbols of an ELF file and their names.
pub mod Laws
use platform_packages_module.Prelude.{
  ℕ, ◌+◌, ◌/◌, ◌%◌, ◌^◌, List, [], ◌∷◌, Option, none, some, Bool, true, false, not, ◌&&◌, ◌==◌, ltb,
  leb, if◌then◌else◌, Text, text_eq, length, get_elem?, ℤ, pos, negsuc,
}
use platform_packages_module.Loader.Stream.{
  Reader, Answer, value, code, outside, ◌>>=◌, pure, fail, undefined, try,
}
use platform_packages_module.Loader.Elf.{
  Shdr, field, structs, read_section_headers_all, read_section_by_type, get_sym_name,
}

-- `Elf64_Sym`, the fields that are read.
pub record Sym : Type 0 where
  pub st_name : ℕ
  pub st_info : ℕ
  pub st_shndx : ℕ
  pub st_value : ℕ

abbrev pub sym_of : List ℕ → Sym
sym_of bs = record {
  st_name = field 0 4 bs;
  st_info = field 4 1 bs;
  st_shndx = field 6 2 bs;
  st_value = field 8 8 bs;
}

-- `std::sort` by `symCompare`. (Symbols with one value keep their order here; the library's sort may
-- swap them.)
unfoldable pub insert_sym : Sym → List Sym → List Sym
insert_sym x [] = x ∷ []
insert_sym x (y ∷ ys) = if leb x.st_value y.st_value then x ∷ y ∷ ys else y ∷ insert_sym x ys

unfoldable pub sort_syms : List Sym → List Sym
sort_syms [] = []
sort_syms (x ∷ xs) = insert_sym x (sort_syms xs)

-- SHT_SYMTAB
abbrev pub symtab_type : ℕ
symtab_type = 2

-- `readSymTab`
unfoldable pub read_sym_tab : Bool → Reader (List Sym)
read_sym_tab sort = do
  bs ← read_section_by_type symtab_type
  let syms = structs sym_of 24 (length bs / 24) bs
  pure (if sort then sort_syms syms else syms)

-- The index of the first section with a name, in a table whose first entry has a given index.
unfoldable pub section_index : ℕ → List Shdr → Text → Reader (Option ℕ)
section_index i [] wanted = pure none
section_index i (sh ∷ shs) wanted = do
  name ← get_sym_name sh.sh_name
  if text_eq name wanted then pure (some i) else section_index (i + 1) shs wanted

-- What `getSectionSymNames` leaves: its result, and the names that it appended.
pub record SymNames : Type 0 where
  pub ret : ℤ
  pub names : List Text

-- The symbol is one of the section, and of the type if one is asked for.
abbrev pub is_wanted : ℕ → Option ℕ → Sym → Bool
is_wanted index none sym = sym.st_shndx == index
is_wanted index (some type) sym = (sym.st_info % 16 == type) && (sym.st_shndx == index)

-- The loop of `getSectionSymNames` over the symbols.
unfoldable pub names_of : ℕ → Option ℕ → List Sym → Reader SymNames
names_of index type [] = pure (record { ret = pos 0; names = [] })
names_of index type (sym ∷ syms) =
    let others = names_of index type syms in
    if not (is_wanted index type sym) then others else (do
      answer ← try (get_sym_name sym.st_name)
      elim answer [
        | outside ↦ undefined
        | code c ↦ pure (record { ret = c; names = [] })
        | value name ↦ (do
          rest ← others
          pure (record { ret = rest.ret; names = name ∷ rest.names }))
      ])

-- The part of `getSectionSymNames` that may return an error before any name is appended.
unfoldable pub section_symbols : Text → Reader (List Sym × ℕ)
section_symbols section_name = do
  syms ← read_sym_tab true
  table ← read_section_headers_all
  found ← section_index 0 table section_name
  elim found [ none ↦ fail (negsuc 0) | some index ↦ pure (syms, index) ]

-- `getSectionSymNames`
unfoldable pub get_section_sym_names : Text → Option ℕ → Reader SymNames
get_section_sym_names section_name type = do
  answer ← try (section_symbols section_name)
  elim answer [
    | outside ↦ undefined
    | code c ↦ pure (record { ret = c; names = [] })
    | value (syms, index) ↦ names_of index type syms
  ]

-- `getSymNameByIdx`. The index is an `int`: one from 2 ^ 31 on is negative, and so is not refused.
unfoldable pub get_sym_name_by_idx : ℕ → Reader Text
get_sym_name_by_idx index = do
  syms ← read_sym_tab false
  if leb (2 ^ 31) index then undefined else elim (get_elem? syms index) [
    | none ↦ fail (negsuc 0)
    | some sym ↦ get_sym_name sym.st_name
  ]
