-- ===== src/Loader/Macros/RoundTrip.antt =====
-- Reading back the definitions of maps that a compiler wrote, as bpf_map_def.h lays them out.
use platform_packages_module.Prelude.{
  ℕ, ◌+◌, ◌-◌, ◌*◌, ◌/◌, ◌%◌, ◌^◌, ◌<◌, ◌≤◌, List, [], ◌∷◌, ◌++◌, ◌≡◌, Bool, true, false, not, ◌==◌,
  Text, codes, length, le, take, drop, arith, refl, ap, ◌∙◌, All, map, length-append,
  length-replicate, replicate, none, pos,
}
use platform_packages_module.Loader.Stream.{value, opened}
use platform_packages_module.Loader.Elf.{field, structs}
use platform_packages_module.Loader.Elf.Image.{
  Section, Object, IsObject, image, take-append, drop-append, le-bytes_of_4,
}
use platform_packages_module.Loader.Elf.RoundTrip.{IsNamed, IsOther, read_section_by_name-image}
use platform_packages_module.Loader.Symbols.{SymNames, get_section_sym_names}
use platform_packages_module.Loader.Files.{map_def_of, read_maps}
use platform_packages_module.Loader.Macros.{MapOptions, define_bpf_map_base}
use platform_packages_module.Loader.Macros.Structs.{
  BpfMapDef, IsMapDef, map_def_rest, map_def_bytes, map_view, bit, char_array,
}

flag_read : (b : Bool) → not (le (bit b ∷ []) == 0) ≡ b
flag_read true = refl
flag_read false = refl

-- What stands some bytes after the two arrays.
rest_read :
    (d : BpfMapDef) (w : IsMapDef d) (n : ℕ)
    → drop (64 + n) ((d.selinux_context ++ d.pin_subdir) ++ map_def_rest d)
      ≡ drop n (map_def_rest d)
rest_read d w n =
    drop-append (d.selinux_context ++ d.pin_subdir) (map_def_rest d) (64 + n) n
      (omega (arith, length-append d.selinux_context d.pin_subdir, w.selinux_context, w.pin_subdir))

shared_read : (d : BpfMapDef) → IsMapDef d → not (field 112 1 (map_def_bytes d) == 0) ≡ d.shared
shared_read d w =
    ap (λ (l : List ℕ). not (le (take 1 l) == 0)) (rest_read d w 0) ∙ flag_read d.shared

uid_read : (d : BpfMapDef) → IsMapDef d → field 116 4 (map_def_bytes d) ≡ d.uid
uid_read d w = ap (λ (l : List ℕ). le (take 4 l)) (rest_read d w 4) ∙ le-bytes_of_4 d.uid w.uid

map_def_of-map_def_bytes : (d : BpfMapDef) → IsMapDef d → map_def_of (map_def_bytes d) ≡ map_view d
map_def_of-map_def_bytes d w = λ i. record {
  type = le-bytes_of_4 d.type w.type i;
  key_size = le-bytes_of_4 d.key_size w.key_size i;
  value_size = le-bytes_of_4 d.value_size w.value_size i;
  max_entries = le-bytes_of_4 d.max_entries w.max_entries i;
  map_flags = le-bytes_of_4 d.map_flags w.map_flags i;
  zero_field = le-bytes_of_4 d.zero_field w.zero_field i;
  gid = le-bytes_of_4 d.gid w.gid i;
  mode = le-bytes_of_4 d.mode w.mode i;
  min_kver = le-bytes_of_4 d.min_kver w.min_kver i;
  max_kver = le-bytes_of_4 d.max_kver w.max_kver i;
  shared = shared_read d w i;
  uid = uid_read d w i;
}

abbrev pub map_defs_bytes : List BpfMapDef → List ℕ
map_defs_bytes [] = []
map_defs_bytes (d ∷ ds) = map_def_bytes d ++ map_defs_bytes ds

length-map_def_bytes : (d : BpfMapDef) → IsMapDef d → length (map_def_bytes d) ≡ 120
length-map_def_bytes d w = omega (
  arith,
  length-append (d.selinux_context ++ d.pin_subdir) (map_def_rest d),
  length-append d.selinux_context d.pin_subdir,
  w.selinux_context,
  w.pin_subdir,
)

length-map_defs_bytes :
    (ds : List BpfMapDef) → All IsMapDef ds → length (map_defs_bytes ds) ≡ 120 * length ds
length-map_defs_bytes [] w = refl
length-map_defs_bytes (d ∷ ds) (w, ws) = omega (
  arith,
  length-append (map_def_bytes d) (map_defs_bytes ds),
  length-map_def_bytes d w,
  length-map_defs_bytes ds ws,
)

structs-map_defs_bytes :
    (ds : List BpfMapDef)
    → All IsMapDef ds
    → structs map_def_of 120 (length ds) (map_defs_bytes ds) ≡ map map_view ds
unfolding structs
structs-map_defs_bytes [] w = refl
structs-map_defs_bytes (d ∷ ds) (w, ws) =
    let size = length-map_def_bytes d w in
    let first =
      ap map_def_of (take-append (map_def_bytes d) (map_defs_bytes ds) 120 size)
      ∙ map_def_of-map_def_bytes d w in
    let others =
      ap (λ l. structs map_def_of 120 (length ds) l)
        (drop-append (map_def_bytes d) (map_defs_bytes ds) 120 0 (omega (arith, size)))
      ∙ structs-map_defs_bytes ds ws in
    λ i. first i ∷ others i

-- The definitions of an object file's maps are read back as they were written by the compiler: those
-- in the first section named "maps" of a file that a linker wrote, with the names of its symbols, if
-- these can be read; each number of a definition that the loader looks at fits its field, the two
-- texts have 32 bytes, the numbers of the file fit, and the sections before have other names. The
-- versions of the loader, the builds to ignore and the two texts of a definition have no influence.
pub read_maps-image :
    (o : Object) (w : IsObject o) (names_before : List Section) (names : Section)
    (names_after before : List Section) (s : Section) (after : List Section) (ds : List BpfMapDef)
    (symbols : SymNames)
    → o.sections ≡ names_before ++ (names ∷ names_after)
    → o.names_index ≡ length names_before
    → o.sections ≡ before ++ (s ∷ after)
    → All (IsOther names.contents (codes "maps")) before
    → IsNamed names.contents s (codes "maps")
    → All IsMapDef ds
    → s.contents ≡ map_defs_bytes ds
    → get_section_sym_names (codes "maps") none (opened (image o))
      ≡ (opened (image o), value symbols)
    → read_maps (opened (image o)) ≡ (
      opened (image o),
      value (record {
        section_ret = pos 0;
        section_size = length s.contents;
        defs = map map_view ds;
        names_ret = symbols.ret;
        names = symbols.names;
      }),
    )
unfolding read_maps
read_maps-image o w nb names na before s after ds symbols en at e others named fit written syms =
    let got =
      read_section_by_name-image o w (codes "maps") nb names na before s after en at e refl others
        named in
    let size : length s.contents ≡ 120 * length ds =
      ap (λ (l : List ℕ). length l) written ∙ length-map_defs_bytes ds fit in
    let count : length s.contents / 120 ≡ length ds = omega (arith, size) in
    let whole : length s.contents % 120 ≡ 0 = omega (arith, size) in
    let decoded : structs map_def_of 120 (length s.contents / 120) s.contents ≡ map map_view ds =
      ap (λ l. structs map_def_of 120 (length s.contents / 120) l) written
      ∙ ap (λ n. structs map_def_of 120 n (map_defs_bytes ds)) count
      ∙ structs-map_defs_bytes ds fit in
    ground (arith, got, whole, syms, decoded)

length-char_array : (t : Text) → length t ≤ 32 → length (char_array t) ≡ 32
length-char_array t h = omega (
  arith,
  length-append t (replicate (32 - length t) 0),
  length-replicate {A = ℕ} (32 - length t) 0,
)

-- The arguments of a macro for maps fit.
pub record IsMapOptions (o : MapOptions) : Type 0 where
  pub usr : o.usr < 2 ^ 32
  pub grp : o.grp < 2 ^ 32
  pub md : o.md < 2 ^ 32
  pub selinux : length o.selinux ≤ 32
  pub pindir : length o.pindir ≤ 32

-- A definition that the macro for any map makes of arguments that fit is as the reading needs it.
pub define_bpf_map_base-IsMapDef :
    (type key_size value_size num_entries min_kver max_kver : ℕ) (o : MapOptions)
    → IsMapOptions o
    → (type < 2 ^ 32) × (key_size < 2 ^ 32) × (value_size < 2 ^ 32) × (num_entries < 2 ^ 32)
    → (min_kver < 2 ^ 32) × (max_kver < 2 ^ 32)
    → IsMapDef (define_bpf_map_base type key_size value_size num_entries o min_kver max_kver)
unfolding define_bpf_map_base
define_bpf_map_base-IsMapDef type key_size value_size num_entries min_kver max_kver o w (t, k, v, n)
      (lo, hi) =
    record {
      type = t;
      key_size = k;
      value_size = v;
      max_entries = n;
      map_flags = omega arith;
      zero_field = omega arith;
      gid = w.grp;
      mode = w.md;
      min_kver = lo;
      max_kver = hi;
      selinux_context = length-char_array o.selinux w.selinux;
      pin_subdir = length-char_array o.pindir w.pindir;
      uid = w.usr;
    }
