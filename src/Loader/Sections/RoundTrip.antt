-- ===== src/Loader/Sections/RoundTrip.antt =====
-- Reading back the definitions of programs that a compiler wrote, as bpf_map_def.h lays them out.
use platform_packages_module.Prelude.{
  ℕ, ◌*◌, ◌/◌, ◌%◌, ◌^◌, ◌<◌, List, [], ◌∷◌, ◌++◌, ◌≡◌, Bool, true, false, not, ◌==◌, if◌then◌else◌,
  codes, length, arith, refl, ap, ◌∙◌, All, map, length-append,
}
use platform_packages_module.Loader.Bpffs.{ProgDef}
use platform_packages_module.Loader.Stream.{value, opened}
use platform_packages_module.Loader.Elf.{field, structs}
use platform_packages_module.Loader.Elf.Image.{
  bytes_of, Section, Object, IsObject, image, take-append, drop-append, le-bytes_of_4,
}
use platform_packages_module.Loader.Elf.RoundTrip.{IsNamed, IsOther, read_section_by_name-image}
use platform_packages_module.Loader.Sections.{prog_def_of, read_prog_defs}

-- A definition as its bytes, with those that the loader does not read.
abbrev pub prog_def_bytes : ProgDef × List ℕ → List ℕ
prog_def_bytes (def, unread) =
    bytes_of 4 def.uid
    ++ (bytes_of 4 def.gid
        ++ (bytes_of 4 def.min_kver
            ++ (bytes_of 4 def.max_kver ++ ((if def.optional then 1 else 0) ∷ unread))))

-- The numbers of a definition fit, and so do the bytes after them.
abbrev pub IsProgDef : ProgDef × List ℕ → Type 0
IsProgDef (def, unread) =
    (def.uid < 2 ^ 32)
    × (def.gid < 2 ^ 32)
    × (def.min_kver < 2 ^ 32)
    × (def.max_kver < 2 ^ 32)
    × (length unread ≡ 75)

abbrev pub definition_of : ProgDef × List ℕ → ProgDef
definition_of (def, unread) = def

abbrev pub prog_defs_bytes : List (ProgDef × List ℕ) → List ℕ
prog_defs_bytes [] = []
prog_defs_bytes (d ∷ ds) = prog_def_bytes d ++ prog_defs_bytes ds

flag_read : (b : Bool) (unread : List ℕ) → not (field 0 1 ((if b then 1 else 0) ∷ unread) == 0) ≡ b
flag_read true unread = refl
flag_read false unread = refl

prog_def_of-prog_def_bytes :
    (d : ProgDef × List ℕ) → IsProgDef d → prog_def_of (prog_def_bytes d) ≡ definition_of d
prog_def_of-prog_def_bytes (def, unread) (a, b, c, d, e) = λ i. record {
  uid = le-bytes_of_4 def.uid a i;
  gid = le-bytes_of_4 def.gid b i;
  min_kver = le-bytes_of_4 def.min_kver c i;
  max_kver = le-bytes_of_4 def.max_kver d i;
  optional = flag_read def.optional unread i;
}

length-prog_def_bytes : (d : ProgDef × List ℕ) → IsProgDef d → length (prog_def_bytes d) ≡ 92
length-prog_def_bytes (def, unread) (a, b, c, d, e) = omega (arith, e)

length-prog_defs_bytes :
    (ds : List (ProgDef × List ℕ)) → All IsProgDef ds → length (prog_defs_bytes ds) ≡ 92 * length ds
length-prog_defs_bytes [] w = refl
length-prog_defs_bytes (d ∷ ds) (w, ws) = omega (
  arith,
  length-append (prog_def_bytes d) (prog_defs_bytes ds),
  length-prog_def_bytes d w,
  length-prog_defs_bytes ds ws,
)

structs-prog_defs_bytes :
    (ds : List (ProgDef × List ℕ))
    → All IsProgDef ds
    → structs prog_def_of 92 (length ds) (prog_defs_bytes ds) ≡ map definition_of ds
unfolding structs
structs-prog_defs_bytes [] w = refl
structs-prog_defs_bytes (d ∷ ds) (w, ws) =
    let size = length-prog_def_bytes d w in
    let first =
      ap prog_def_of (take-append (prog_def_bytes d) (prog_defs_bytes ds) 92 size)
      ∙ prog_def_of-prog_def_bytes d w in
    let others =
      ap (λ l. structs prog_def_of 92 (length ds) l)
        (drop-append (prog_def_bytes d) (prog_defs_bytes ds) 92 0 (omega (arith, size)))
      ∙ structs-prog_defs_bytes ds ws in
    λ i. first i ∷ others i

-- The definitions of an object file's programs are read back as they were written: those in the
-- first section named "progs" of a file that a linker wrote, if each fits its fields, the numbers
-- fit the file's, and the sections before have other names.
pub read_prog_defs-image :
    (o : Object) (w : IsObject o) (names_before : List Section) (names : Section)
    (names_after before : List Section) (s : Section) (after : List Section)
    (ds : List (ProgDef × List ℕ))
    → o.sections ≡ names_before ++ (names ∷ names_after)
    → o.names_index ≡ length names_before
    → o.sections ≡ before ++ (s ∷ after)
    → All (IsOther names.contents (codes "progs")) before
    → IsNamed names.contents s (codes "progs")
    → All IsProgDef ds
    → s.contents ≡ prog_defs_bytes ds
    → read_prog_defs (opened (image o)) ≡ (opened (image o), value (map definition_of ds))
unfolding read_prog_defs
read_prog_defs-image o w nb names na before s after ds en at e others named fit written =
    let got =
      read_section_by_name-image o w (codes "progs") nb names na before s after en at e refl others
        named in
    let size : length s.contents ≡ 92 * length ds =
      ap (λ (l : List ℕ). length l) written ∙ length-prog_defs_bytes ds fit in
    let count : length s.contents / 92 ≡ length ds = omega (arith, size) in
    let whole : length s.contents % 92 ≡ 0 = omega (arith, size) in
    let decoded : structs prog_def_of 92 (length s.contents / 92) s.contents
        ≡ map definition_of ds =
      ap (λ l. structs prog_def_of 92 (length s.contents / 92) l) written
      ∙ ap (λ n. structs prog_def_of 92 n (prog_defs_bytes ds)) count
      ∙ structs-prog_defs_bytes ds fit in
    ground (arith, got, whole, decoded)
