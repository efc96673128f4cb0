-- ===== src/Loader/Macros/Tests.antt =====
-- An object file with the definition of one map, which is read back.
use platform_packages_module.Prelude.{
  ◌^◌, ◌≡◌, [], ◌∷◌, ◌++◌, true, codes, none, refl, arith, length, replicate, pos, ltb,
}
use platform_packages_module.Loader.Stream.{value, opened, read_at}
use platform_packages_module.Loader.Elf.{
  c_str, structs, read_section_by_type, read_section_headers_all, read_elf_header,
  find_section_of_type, read_section, get_sym_name, read_section_header_strtab, read_section_by_idx,
}
use platform_packages_module.Loader.Elf.Image.{
  bytes_of, Section, IsSection, Object, IsObject, image,
}
use platform_packages_module.Loader.Elf.RoundTrip.{IsOther}
use platform_packages_module.Loader.Symbols.{
  get_section_sym_names, section_symbols, read_sym_tab, section_index, insert_sym, names_of,
  sort_syms,
}
use platform_packages_module.Loader.Files.{read_maps}
use platform_packages_module.Loader.Macros.{
  define_bpf_map_grw, define_bpf_map_ugm, define_bpf_map_ext, define_bpf_map_base, default_options,
}
use platform_packages_module.Loader.Macros.Structs.{BpfMapDef, IsMapDef, map_view, map_def_bytes}
use platform_packages_module.Loader.Macros.RoundTrip.{define_bpf_map_base-IsMapDef, read_maps-image}

-- A hash map of 16 entries from 8 to 4 bytes, for root and a group.
abbrev counts : BpfMapDef
counts = define_bpf_map_grw 1 8 4 16 1093

-- 0 ".strtab", 8 ".symtab", 16 "maps", 21 "counts"
abbrev strtab : Section
strtab = record {
  name_offset = 0;
  type = 3;
  flags = replicate 16 0;
  contents =
      codes ".strtab"
      ++ (0 ∷ (codes ".symtab" ++ (0 ∷ (codes "maps" ++ (0 ∷ (codes "counts" ++ (0 ∷ [])))))));
  links = replicate 24 0;
}

-- The map, a symbol of section 2.
abbrev symtab : Section
symtab = record strtab {
  name_offset = 8;
  type = 2;
  contents = bytes_of 4 21 ++ (17 ∷ 0 ∷ (bytes_of 2 2 ++ replicate 16 0));
}

abbrev maps : Section
maps = record strtab { name_offset = 16; type = 1; contents = map_def_bytes counts ++ [] }

abbrev object : Object
object = record {
  ident = replicate 40 0;
  flags = replicate 10 0;
  sections = strtab ∷ symtab ∷ maps ∷ [];
  names_index = 0;
}

counts-IsMapDef : IsMapDef counts
unfolding define_bpf_map_grw define_bpf_map_ugm define_bpf_map_ext define_bpf_map_base
counts-IsMapDef =
    define_bpf_map_base-IsMapDef 1 8 4 16 0 4294967295 (default_options 0 1093 0x1b0)
      (record {
        usr = omega arith;
        grp = omega arith;
        md = omega arith;
        selinux = omega arith;
        pindir = omega arith;
      })
      (omega arith, omega arith, omega arith, omega arith) (omega arith, omega arith)

fitting :
    (s : Section)
    → ltb s.name_offset (2 ^ 32) ≡ true
    → ltb s.type (2 ^ 32) ≡ true
    → length s.flags ≡ 16
    → length s.links ≡ 24
    → IsSection s
fitting s a b c d = record {
  name_fits = ground (arith, a);
  type_fits = ground (arith, b);
  flags_size = c;
  links_size = d;
}

object-IsObject : IsObject object
unfolding define_bpf_map_grw define_bpf_map_ugm define_bpf_map_ext define_bpf_map_base
object-IsObject = record {
  ident_size = refl;
  flags_size = refl;
  sections_fit = omega arith;
  index_fits = omega arith;
  file_fits = omega arith;
  all_fit = (
    fitting strtab refl refl refl refl,
    (fitting symtab refl refl refl refl, (fitting maps refl refl refl refl, tt)),
  );
}

strtab-IsOther : IsOther strtab.contents (codes "maps") strtab
unfolding c_str
strtab-IsOther = (codes ".strtab", refl, λ e. cc e)

symtab-IsOther : IsOther strtab.contents (codes "maps") symtab
unfolding c_str
symtab-IsOther = (codes ".symtab", refl, λ e. cc e)

symbols_read :
    get_section_sym_names (codes "maps") none (opened (image object))
    ≡ (opened (image object), value (record { ret = pos 0; names = codes "counts" ∷ [] }))
unfolding c_str get_section_sym_names section_symbols read_sym_tab read_section_by_type
    read_section_headers_all read_elf_header read_at image define_bpf_map_grw define_bpf_map_ugm
    define_bpf_map_ext define_bpf_map_base find_section_of_type read_section section_index
    get_sym_name read_section_header_strtab read_section_by_idx structs insert_sym names_of
    sort_syms
symbols_read = refl

read_maps-image_example : read_maps (opened (image object)) ≡ (
  opened (image object),
  value (record {
    section_ret = pos 0;
    section_size = length maps.contents;
    defs = map_view counts ∷ [];
    names_ret = pos 0;
    names = codes "counts" ∷ [];
  }),
)
unfolding c_str
read_maps-image_example =
    read_maps-image object object-IsObject [] strtab (symtab ∷ maps ∷ []) (strtab ∷ symtab ∷ [])
      maps [] (counts ∷ []) (record { ret = pos 0; names = codes "counts" ∷ [] }) refl refl refl
      (strtab-IsOther, (symtab-IsOther, tt)) refl (counts-IsMapDef, tt) refl symbols_read
