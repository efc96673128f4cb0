-- ===== src/Loader/Sections.antt =====
-- bpfloader/UprobeStatsBpfLoad.cpp, `readProgDefs` and `readCodeSections`: the programs of an object
-- file, decoded as bpf_map_def.h and the kernel's <linux/bpf.h> and <elf.h> lay them out.
pub mod Laws
pub mod RoundTrip
pub mod Instructions
use platform_packages_module.Prelude.{
  ℕ, ◌+◌, ◌/◌, ◌%◌, ◌^◌, List, [], ◌∷◌, ◌++◌, Option, none, some, Bool, true, false, not, ◌&&◌,
  ◌==◌, if◌then◌else◌, Text, codes, text_eq, length, map, ℤ, pos, negsuc, is_zero, to_int32,
}
use platform_packages_module.LibBase.{LibBase}
use platform_packages_module.Loader.Bpffs.{ProgDef, Insn}
use platform_packages_module.Loader.Stream.{
  Reader, Answer, value, code, outside, ◌>>=◌, pure, fail, undefined, try,
}
use platform_packages_module.Loader.Names.{prog_type_unspec, get_section_type, is_allowed_type}
use platform_packages_module.Loader.Relo.{CodeSection}
use platform_packages_module.Loader.Elf.{
  Shdr, field, structs, is_empty_table, read_section_headers_all, read_section_by_idx,
  read_section_by_name, get_sym_name,
}
use platform_packages_module.Loader.Symbols.{SymNames, get_section_sym_names}

-- `sizeof(struct bpf_prog_def)`
abbrev pub prog_def_size : ℕ
prog_def_size = 92

-- A `struct bpf_prog_def` from its bytes; that of `optional` is 0 or 1.
abbrev pub prog_def_of : List ℕ → ProgDef
prog_def_of bs = record {
  uid = field 0 4 bs;
  gid = field 4 4 bs;
  min_kver = field 8 4 bs;
  max_kver = field 12 4 bs;
  optional = not (field 16 1 bs == 0);
}

-- A `struct bpf_insn` from its bytes.
abbrev pub insn_of : List ℕ → Insn
insn_of bs = record {
  code = field 0 1 bs;
  dst_reg = field 1 1 bs % 16;
  src_reg = field 1 1 bs / 16;
  off = field 2 2 bs;
  imm = to_int32 (field 4 4 bs);
}

-- The offset of an `Elf64_Rel`, and the index of its symbol.
abbrev pub rel_of : List ℕ → ℕ × ℕ
rel_of bs = (field 0 8 bs, field 12 4 bs)

-- `readProgDefs`
unfoldable pub read_prog_defs : Reader (List ProgDef)
unfolding structs
read_prog_defs = do
  bs ← read_section_by_name (codes "progs")
  if not (length bs % prog_def_size == 0)
      then fail (negsuc 0)
      else pure (structs prog_def_of prog_def_size (length bs / prog_def_size) bs)

-- `std::replace` of the slashes of a name (47) by underscores (95).
abbrev pub underscored : Text → Text
underscored name = map (λ c. if c == 47 then 95 else c) name

-- The loop over the names of the definitions: the definition at the index of the first that is
-- wanted. `none` is a read outside the definitions.
unfoldable pub find_prog_def : List Text → List ProgDef → Text → Option (Option ProgDef)
find_prog_def [] defs wanted = some none
find_prog_def (name ∷ names) [] wanted =
    if text_eq name wanted then none else find_prog_def names [] wanted
find_prog_def (name ∷ names) (def ∷ defs) wanted =
    if text_eq name wanted then some (some def) else find_prog_def names defs wanted

-- The relocations of the section at an index, from the header that follows; the entry past the last
-- one is outside the table.
unfoldable pub read_relocations : (old_name : Text) → ℕ → (following : List Shdr) → Reader (List ℕ)
read_relocations old_name i [] = undefined
read_relocations old_name i (next ∷ _) = do
  name ← get_sym_name next.sh_name
  if text_eq name (codes ".rel" ++ old_name) then read_section_by_idx (i + 1) else pure []

-- How a turn of the loop of `readCodeSections` ends, without an error: the next section, a section
-- for the list, or `return 0`.
pub data Turn : Type 0 where
  pass_over : Turn
  push : CodeSection → Turn
  stop_reading : Turn

-- A section with its bytes, once its definition is found.
unfoldable pub complete_section :
    (type : ℕ) → Text → ℕ → (following : List Shdr) → List ℕ → Option ProgDef → Reader Turn
unfolding structs is_empty_table
complete_section type old_name i following bs def =
    if is_empty_table bs then pure pass_over else (do
      rel ← read_relocations old_name i following
      pure (
          push (record {
            type = type;
            name = underscored old_name;
            insns = structs insn_of 8 (length bs / 8) bs;
            rel_data = structs rel_of 16 (length rel / 16) rel;
            prog_def = def;
          })))

module _ (defs : List ProgDef) (def_names : List Text) where
  -- A section whose type is allowed, by its functions' names (STT_FUNC is 2).
  unfoldable pub read_allowed_section :
      (type : ℕ) → Text → ℕ → (following : List Shdr) → Reader Turn
  read_allowed_section type old_name i following = do
    bs ← read_section_by_idx i
    functions ← get_section_sym_names old_name (some 2)
    if not (is_zero functions.ret) then fail functions.ret else elim functions.names [
      | [] ↦ pure stop_reading
      | first ∷ others ↦ elim (find_prog_def def_names defs (first ++ codes "_def")) [
        | none ↦ undefined
        | some def ↦ complete_section type old_name i following bs def
      ]
    ]

  -- One turn of the loop; `fuse` is what `getFuseProgType` returns.
  unfoldable pub read_code_section :
      (base : LibBase) (fuse : ℕ)
      → Option (List ℕ)
      → ℕ
      → Shdr
      → (following : List Shdr) → Reader Turn
  read_code_section base fuse allowed i sh following = do
    name ← get_sym_name sh.sh_name
    let type = get_section_type base fuse name
    if type == prog_type_unspec
        then pure pass_over
        else if not (is_allowed_type fuse type allowed)
        then fail (negsuc 0)
        else read_allowed_section type name i following

  -- The loop over the section headers, from an index on.
  unfoldable pub code_loop :
      (base : LibBase) (fuse : ℕ) → Option (List ℕ) → ℕ → List Shdr → Reader (List CodeSection)
  code_loop base fuse allowed i [] = pure []
  code_loop base fuse allowed i (sh ∷ shs) =
      let others = code_loop base fuse allowed (i + 1) shs in
      do
        turn ← read_code_section base fuse allowed i sh shs
        elim turn [
          | pass_over ↦ others
          | stop_reading ↦ pure []
          | push c ↦ (do rest ← others; pure (c ∷ rest))
        ]

-- The names of the definitions may be missing if there is no definition.
abbrev pub names_required : List ProgDef → ℤ → Bool
names_required [] ret = false
names_required (_ ∷ _) ret = not (is_zero ret)

-- `readCodeSections`
unfoldable pub read_code_sections :
    (base : LibBase) (fuse : ℕ) → Option (List ℕ) → Reader (List CodeSection)
read_code_sections base fuse allowed = do
  table ← read_section_headers_all
  defs ← read_prog_defs
  named ← get_section_sym_names (codes "progs") none
  if names_required defs named.ret
      then fail named.ret
      else code_loop defs named.names base fuse allowed 0 table
