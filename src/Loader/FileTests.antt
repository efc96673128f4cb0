-- ===== src/Loader/FileTests.antt =====
-- Reading a small object file: its names, its symbols, a definition and a program, which is its last
-- section.
use platform_packages_module.Prelude.{
  ℕ, ◌⊎◌, ◌≤◌, ◌^◌, ◌≡◌, List, [], ◌∷◌, ◌++◌, Option, none, some, true, ◌==◌, if◌then◌else◌, Text,
  codes, refl, arith, replicate, ltb, length,
}
use platform_packages_module.LibBase.Sample.{base}
use platform_packages_module.Loader.Bpffs.{errno, MapShape, ProgDef, ProgRequest, Answer}
use platform_packages_module.Loader.Names.{
  is_allowed_type, allowed_in, get_section_type, section_type_in,
}
use platform_packages_module.Loader.Stream.{opened, value, outside, read_at}
use platform_packages_module.Loader.Elf.{
  is_empty_table, Shdr, read_section_by_name, read_section, read_section_by_idx,
  read_section_headers_all, read_elf_header, read_section_header_strtab, get_sym_name, c_str,
  structs, read_section_by_type, find_section_of_type,
}
use platform_packages_module.Loader.Elf.Image.{
  bytes_of, Section, IsSection, Object, IsObject, image, shdr_at,
}
use platform_packages_module.Loader.Elf.RoundTrip.{IsOther, read_section_by_name-image}
use platform_packages_module.Loader.Symbols.{
  sort_syms, insert_sym, read_sym_tab, section_index, section_symbols, names_of,
  get_section_sym_names,
}
use platform_packages_module.Loader.Sections.{
  read_code_section, read_allowed_section, complete_section, read_relocations, find_prog_def,
  read_prog_defs, code_loop,
}
use platform_packages_module.Loader.Sections.RoundTrip.{prog_def_bytes, read_prog_defs-image}
use platform_packages_module.Loader.Maps.{
  map_matches_expectations, effective_type, effective_entries,
}
use platform_packages_module.Loader.Macros.{
  define_bpf_map_base, define_bpf_ringbuf_ext, define_bpf_ringbuf, default_options,
}
use platform_packages_module.Loader.Macros.Structs.{map_view}
use platform_packages_module.Loader.Macros.Laws.{info_of, ringbuf-init}
use platform_packages_module.Bpf.{init}
use platform_packages_module.Bpf.Laws.{mapping_of}
use platform_packages_module.Loader.Boot.{ObjectFiles, load_at_boot}
use platform_packages_module.Loader.Boot.Laws.{load_at_boot-other}
use platform_packages_module.Loader.Tests.{sys, boot, kvers, Kernel}

-- A name with its end.
abbrev z : Text → List ℕ
z t = t ++ (0 ∷ [])

-- 0 ".strtab", 8 ".symtab", 16 "progs", 22 "uprobe/f", 31 "f", 33 "f_def"
abbrev strtab : Section
strtab = record {
  name_offset = 0;
  type = 3;
  flags = replicate 16 0;
  contents =
      z (codes ".strtab")
      ++ (z (codes ".symtab")
          ++ (z (codes "progs") ++ (z (codes "uprobe/f") ++ (z (codes "f") ++ z (codes "f_def")))));
  links = replicate 24 0;
}

abbrev sym_bytes : (name info section : ℕ) → List ℕ
sym_bytes name info section = bytes_of 4 name ++ (info ∷ 0 ∷ (bytes_of 2 section ++ replicate 16 0))

-- The function of section 3, and the definition in section 2.
abbrev symtab : Section
symtab = record strtab {
  name_offset = 8;
  type = 2;
  contents = sym_bytes 31 2 3 ++ sym_bytes 33 1 2;
}

abbrev definition : ProgDef × List ℕ
definition = (
  record { uid = 1093; gid = 1093; min_kver = 0; max_kver = 4294967295; optional = true },
  replicate 75 0,
)

abbrev progs : Section
progs = record strtab { name_offset = 16; type = 1; contents = prog_def_bytes definition ++ [] }

-- One instruction, `exit`.
abbrev program : Section
program = record strtab { name_offset = 22; type = 1; contents = 149 ∷ replicate 7 0 }

abbrev object : Object
object = record {
  ident = replicate 40 0;
  flags = replicate 10 0;
  sections = strtab ∷ symtab ∷ progs ∷ program ∷ [];
  names_index = 0;
}

fitting :
    (s : Section)
    → ltb s.name_offset (2 ^ 32) ≡ true
    → ltb s.type (2 ^ 32) ≡ true
    → length s.flags ≡ 16
    → length s.links ≡ 24
    → IsSection s
fitting s a b c d = record {
  name_fits = ground (arith, a);
  type_fits = ground (arith, b);
  flags_size = c;
  links_size = d;
}

object-IsObject : IsObject object
object-IsObject = record {
  ident_size = refl;
  flags_size = refl;
  sections_fit = omega arith;
  index_fits = omega arith;
  file_fits = omega arith;
  all_fit = (
    fitting strtab refl refl refl refl,
    (
      fitting symtab refl refl refl refl,
      (fitting progs refl refl refl refl, (fitting program refl refl refl refl, tt)),
    ),
  );
}

strtab-IsOther : IsOther strtab.contents (codes "progs") strtab
unfolding c_str
strtab-IsOther = (codes ".strtab", refl, λ e. cc e)

symtab-IsOther : IsOther strtab.contents (codes "progs") symtab
unfolding c_str
symtab-IsOther = (codes ".symtab", refl, λ e. cc e)

read_section_by_name-image_example :
    read_section_by_name (codes "progs") (opened (image object))
    ≡ (opened (image object), value progs.contents)
unfolding c_str
read_section_by_name-image_example =
    read_section_by_name-image object object-IsObject (codes "progs") [] strtab
      (symtab ∷ progs ∷ program ∷ []) (strtab ∷ symtab ∷ []) progs (program ∷ []) refl refl refl
      refl (strtab-IsOther, (symtab-IsOther, tt)) refl

read_prog_defs-image_example :
    read_prog_defs (opened (image object)) ≡ (opened (image object), value (definition.0 ∷ []))
unfolding c_str
read_prog_defs-image_example =
    read_prog_defs-image object object-IsObject [] strtab (symtab ∷ progs ∷ program ∷ [])
      (strtab ∷ symtab ∷ []) progs (program ∷ []) (definition ∷ []) refl refl refl
      (strtab-IsOther, (symtab-IsOther, tt)) refl
      ((omega arith, omega arith, omega arith, omega arith, refl), tt) refl

-- The header of the program's section.
abbrev program_header : Shdr
program_header = shdr_at 243 program

last_section_runs :
    code_loop
      (definition.0 ∷ [])
      (codes "f_def" ∷ [])
      base
      0
      (some (2 ∷ []))
      3
      (program_header ∷ [])
      (opened (image object))
    ≡ (opened (image object), outside)
unfolding code_loop read_code_section read_allowed_section complete_section read_relocations
    find_prog_def is_empty_table get_section_type is_allowed_type get_section_sym_names image
    read_at read_elf_header structs read_section_headers_all read_section read_section_by_idx
    read_section_header_strtab c_str get_sym_name find_section_of_type read_section_by_type
    insert_sym sort_syms read_sym_tab section_index names_of section_symbols section_type_in
    allowed_in
last_section_runs = refl

-- A kernel that loads no program of another type.
abbrev strict_load : Kernel → ProgRequest → Kernel × Answer
strict_load w r = if r.prog_type == 2 then sys.load_prog w r else (w, errno 1)

strict_load-agrees :
    (w : Kernel) (r : ProgRequest) → r.prog_type ≡ 2 → strict_load w r ≡ sys.load_prog w r
strict_load-agrees w r h = ground (arith, h)

-- The directory with the one object.
abbrev files : ObjectFiles
files = record {
  names_in = λ dir. some (codes "a.o" ∷ []);
  bytes_of_file = λ path. some (image object);
}

abbrev mkdir : ℕ → Text → Option ℕ
mkdir umask path = none

load_at_boot-other_example :
    load_at_boot base (record sys { load_prog = strict_load }) 4096 kvers 0 files mkdir 63 boot
    ≡ load_at_boot base sys 4096 kvers 0 files mkdir 63 boot
load_at_boot-other_example =
    load_at_boot-other base sys 4096 kvers 0 files strict_load mkdir 63 strict_load-agrees boot

-- A map as BitmapAllocation.c defines it, on pages of 4096 bytes.
abbrev output_shape : MapShape
output_shape = record {
  type = 27;
  key_size = 0;
  value_size = 0;
  max_entries = 16384;
  map_flags = 0;
}

output_matches :
    map_matches_expectations 4096 output_shape
      (map_view (define_bpf_ringbuf 16384 1093 1093 384))
      (effective_type kvers (map_view (define_bpf_ringbuf 16384 1093 1093 384)).type)
    ≡ true
unfolding define_bpf_ringbuf define_bpf_ringbuf_ext define_bpf_map_base effective_type
    effective_entries map_matches_expectations
output_matches = refl

ringbuf-init_example :
    (n : ℕ) × ((n ≡ 12) ⊎ (n ≡ 14))
    × (2 ^ 12 ≤ 2 ^ n)
    × (2 ^ 14 ≤ 2 ^ n)
    × (init (info_of 4096 output_shape) ≡ some (mapping_of (info_of 4096 output_shape) n))
unfolding define_bpf_ringbuf
ringbuf-init_example =
    ringbuf-init 12 14 kvers (default_options 1093 1093 384) output_shape output_matches
