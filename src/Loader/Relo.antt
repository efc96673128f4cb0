-- ===== src/Loader/Relo.antt =====
-- bpfloader/UprobeStatsBpfLoad.cpp, `applyRelo` and `applyMapRelo`: the descriptors of the maps are
-- written into the instructions that load them.
pub mod Laws
use platform_packages_module.Prelude.{
  ℕ, ◌+◌, ◌/◌, List, [], ◌∷◌, Option, none, some, Bool, true, false, not, ◌==◌, if◌then◌else◌, Text,
  text_eq, ℤ, pos, negsuc, to_int32, get_elem?, set,
}
use platform_packages_module.Loader.Bpffs.{Insn, ProgDef}
use platform_packages_module.Loader.Stream.{Answer, value, code, outside}

-- `codeSection`, with its instructions apart. (The descriptor of the program is made as it is
-- loaded.)
pub record CodeSection : Type 0 where
  pub type : ℕ
  pub name : Text
  pub insns : List Insn
  pub rel_data : List (ℕ × ℕ)
  pub prog_def : Option ProgDef

-- `BPF_LD | BPF_IMM | BPF_DW`
abbrev pub ld_imm_dw : ℕ
ld_imm_dw = 24

-- `BPF_PSEUDO_MAP_FD`
abbrev pub pseudo_map_fd : ℕ
pseudo_map_fd = 1

-- A descriptor as an `int`; that of a skipped map is -1.
abbrev pub fd_value : Option ℕ → ℤ
fd_value (some fd) = pos fd
fd_value none = negsuc 0

-- The instruction that loads a map's address, with the map's descriptor.
abbrev pub load_of : Insn → ℤ → Insn
load_of i fd = record i { imm = fd; src_reg = pseudo_map_fd }

-- `applyRelo`: the index of the instruction is an `int`. `none` is an index outside the section.
unfoldable pub apply_relo : List Insn → (offset : ℕ) → ℤ → Option (List Insn)
apply_relo insns offset fd = elim (to_int32 (offset / 8)) [
  | negsuc _ ↦ none
  | pos index ↦ elim (get_elem? insns index) [
    | none ↦ none
    | some i ↦
        if not (i.code == ld_imm_dw) then some insns else some (set insns index (load_of i fd))
  ]
]

-- The loop over the map names for one symbol, with the descriptors at the same indices. A name
-- without a descriptor is a read outside the vector.
unfoldable pub relo_symbol :
    List Insn → (offset : ℕ) → Text → List Text → List (Option ℕ) → Option (List Insn)
relo_symbol insns offset symbol [] fds = some insns
relo_symbol insns offset symbol (name ∷ names) [] =
    if text_eq name symbol then none else relo_symbol insns offset symbol names []
relo_symbol insns offset symbol (name ∷ names) (fd ∷ fds) =
    if text_eq name symbol
    then apply_relo insns offset (fd_value fd)
    else relo_symbol insns offset symbol names fds

-- How the relocation of a section ends: it goes on, or it stops all of `applyMapRelo` at a symbol
-- that cannot be read, each with the instructions so far.
pub data Relocated (A : Type 0) : Type 0 where
  done : A → Relocated A
  stopped : A → Relocated A
  left_vector : Relocated A

module _ (symbol_name : ℕ → Answer Text) (names : List Text) (fds : List (Option ℕ)) where
  -- The loop over the relocations of one section: pairs of an offset and a symbol's index.
  unfoldable pub relo_section : List Insn → List (ℕ × ℕ) → Relocated (List Insn)
  relo_section insns [] = done insns
  relo_section insns ((offset, index) ∷ rels) = elim (symbol_name index) [
    | outside ↦ left_vector
    | code c ↦ stopped insns
    | value symbol ↦ elim (relo_symbol insns offset symbol names fds) [
      | none ↦ left_vector
      | some insns' ↦ relo_section insns' rels
    ]
  ]

  -- The loop over the sections.
  unfoldable pub relo_sections : List CodeSection → Option (List CodeSection)
  relo_sections [] = some []
  relo_sections (c ∷ cs) = elim (relo_section c.insns c.rel_data) [
    | left_vector ↦ none
    | stopped insns ↦ some (record c { insns = insns } ∷ cs)
    | done insns ↦ elim (relo_sections cs) [
      | none ↦ none
      | some rest ↦ some (record c { insns = insns } ∷ rest)
    ]
  ]

-- `applyMapRelo`, after the result of reading the names.
unfoldable pub apply_map_relo :
    (symbol_name : ℕ → Answer Text) (names : Option (List Text)) (fds : List (Option ℕ))
    → List CodeSection
    → Option (List CodeSection)
apply_map_relo symbol_name none fds cs = some cs
apply_map_relo symbol_name (some names) fds cs = relo_sections symbol_name names fds cs
