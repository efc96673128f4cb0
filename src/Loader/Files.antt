-- ===== src/Loader/Files.antt =====
-- bpfloader/UprobeStatsBpfLoad.cpp: `loadProg` of a file's bytes: what it reads of the object, in the
-- order of the reads.
pub mod Permitted
pub mod Requests
use platform_packages_module.Prelude.{
  ℕ, ◌/◌, ◌%◌, List, [], Option, none, some, true, false, not, ◌==◌, if◌then◌else◌, Text, codes,
  length, ◌∷◌, ℤ, pos, negsuc, is_zero,
}
use platform_packages_module.LibBase.{LibBase}
use platform_packages_module.Loader.Bpffs.{MapDef, Bpffs}
use platform_packages_module.Loader.Stream.{
  Stream, Reader, Answer, value, code, outside, opened, answer_of, ◌>>=◌, pure, undefined, try,
}
use platform_packages_module.Loader.Elf.{field, structs, c_str, read_section_by_name}
use platform_packages_module.Loader.Symbols.{SymNames, get_section_sym_names, get_sym_name_by_idx}
use platform_packages_module.Loader.Sections.{read_code_sections}
use platform_packages_module.Loader.Relo.{CodeSection}
use platform_packages_module.Loader.Maps.{ElfMaps, map_def_size, is_minus_two, Ended, returned}
use platform_packages_module.Loader.Objects.{ElfObject, Loaded, load_prog}

-- A `struct bpf_map_def` from its bytes; that of `shared` is 0 or 1.
abbrev pub map_def_of : List ℕ → MapDef
map_def_of bs = record {
  type = field 0 4 bs;
  key_size = field 4 4 bs;
  value_size = field 8 4 bs;
  max_entries = field 12 4 bs;
  map_flags = field 16 4 bs;
  zero_field = field 20 4 bs;
  gid = field 24 4 bs;
  mode = field 28 4 bs;
  min_kver = field 40 4 bs;
  max_kver = field 44 4 bs;
  shared = not (field 112 1 bs == 0);
  uid = field 116 4 bs;
}

abbrev no_maps : ℤ → ElfMaps
no_maps ret = record {
  section_ret = ret;
  section_size = 0;
  defs = [];
  names_ret = pos 0;
  names = [];
}

-- What `createMaps` reads; without a section its names are those that `applyMapRelo` reads later.
unfoldable pub read_maps : Reader ElfMaps
unfolding structs
read_maps = do
  section ← try (read_section_by_name (codes "maps"))
  elim section [
    | outside ↦ undefined
    | code c ↦ if not (is_minus_two c) then pure (no_maps c) else (do
      names ← get_section_sym_names (codes "maps") none
      pure (record (no_maps c) { names_ret = names.ret; names = names.names }))
    | value bs ↦
        if not (length bs % map_def_size == 0)
        then pure (record (no_maps (pos 0)) { section_size = length bs })
        else (do
          names ← get_section_sym_names (codes "maps") none
          pure (record {
            section_ret = pos 0;
            section_size = length bs;
            defs = structs map_def_of map_def_size (length bs / map_def_size) bs;
            names_ret = names.ret;
            names = names.names;
          }))
  ]

-- The names of the symbols, as `applyMapRelo` reads them one by one.
unfoldable pub read_symbol_names : Reader (ℕ → Answer Text)
read_symbol_names s = (s, value (λ index. answer_of (get_sym_name_by_idx index s)))

-- An object of which nothing was read but its critical section.
abbrev pub object_with : (critical_ret : ℤ) → ElfObject
object_with critical_ret = record {
  is_open = true;
  critical_ret = critical_ret;
  license_ret = pos 0;
  license = [];
  code_ret = pos 0;
  code = [];
  maps = no_maps (negsuc 1);
  symbol_name = λ index. outside;
}

-- What is read after the programs: the maps and the names of the symbols.
unfoldable pub read_after_programs : ElfObject → Answer (List CodeSection) → Reader ElfObject
read_after_programs elf outside = undefined
read_after_programs elf (code c) = pure (record elf { code_ret = c })
read_after_programs elf (value cs) = do
  maps ← read_maps
  names ← read_symbol_names
  pure (record elf { code = cs; maps = maps; symbol_name = names })

unfoldable pub read_programs :
    (base : LibBase) (fuse : ℕ) → Option (List ℕ) → ElfObject → Reader ElfObject
read_programs base fuse allowed elf = do
  sections ← try (read_code_sections base fuse allowed)
  read_after_programs elf sections

-- The critical section and the license are printed as C strings, which end within them.
unfoldable pub read_after_license :
    (base : LibBase) (fuse : ℕ)
    → Option (List ℕ)
    → (critical : Option Text) → ElfObject
    → Answer (List ℕ)
    → Reader ElfObject
read_after_license base fuse allowed critical elf outside = undefined
read_after_license base fuse allowed critical elf (code c) = pure (record elf { license_ret = c })
read_after_license base fuse allowed none elf (value bs) = undefined
read_after_license base fuse allowed (some shown) elf (value bs) = elim (c_str bs) [
  | none ↦ undefined
  | some text ↦ read_programs base fuse allowed (record elf { license = text })
]

unfoldable pub read_license :
    (base : LibBase) (fuse : ℕ)
    → Option (List ℕ)
    → (critical : Option Text) → ElfObject
    → Reader ElfObject
read_license base fuse allowed critical elf = do
  license ← try (read_section_by_name (codes "license"))
  read_after_license base fuse allowed critical elf license

-- Without a critical section "" is printed.
unfoldable pub read_after_critical :
    (base : LibBase) (fuse : ℕ) → Option (List ℕ) → Answer (List ℕ) → Reader ElfObject
read_after_critical base fuse allowed outside = undefined
read_after_critical base fuse allowed (code c) =
    read_license base fuse allowed (some []) (object_with c)
read_after_critical base fuse allowed (value bs) =
    read_license base fuse allowed (c_str bs) (object_with (pos 0))

-- What `loadProg` reads of a file that opens.
unfoldable pub read_object : (base : LibBase) (fuse : ℕ) → Option (List ℕ) → Reader ElfObject
read_object base fuse allowed = do
  critical ← try (read_section_by_name (codes "critical"))
  read_after_critical base fuse allowed critical

-- `loadProg` of a file: nothing if it does not open, else its bytes.
unfoldable pub load_file :
    (base : LibBase) (sys : Bpffs) (page_size kvers fuse : ℕ) (prefix : Text)
    → Option (List ℕ)
    → Text
    → Option (List ℕ)
    → sys.World
    → Loaded sys.World
load_file base sys page_size kvers fuse prefix allowed path none w =
    load_prog base sys page_size kvers prefix path
      (record (object_with (negsuc 0)) { is_open = false }) w
load_file base sys page_size kvers fuse prefix allowed path (some bytes) w =
    elim (answer_of (read_object base fuse allowed (opened bytes))) [
      | outside ↦ record { world = w; ended = Ended.undefined; critical = false }
      | code c ↦ record { world = w; ended = returned c; critical = false }
      | value elf ↦ load_prog base sys page_size kvers prefix path elf w
    ]
