-- ===== src/Loader/Elf/Image.antt =====
-- Object files as a linker writes them: the header, the contents of the sections one after another,
-- and the table of section headers. What the reading of sections is compared with.
use platform_packages_module.Prelude.{
  ℕ, zero, suc, ◌+◌, ◌/◌, ◌%◌, ◌^◌, ◌<◌, List, [], ◌∷◌, ◌++◌, ◌≡◌, length, le, arith, refl, take,
  drop, length-append, ap, ◌∙◌, All,
}
use platform_packages_module.Loader.Elf.{Ehdr, Shdr, ehdr_of, shdr_of, field}

-- A number as `n` bytes, the lowest first.
abbrev pub bytes_of : (n w : ℕ) → List ℕ
bytes_of zero w = []
bytes_of (suc n) w = w % 256 ∷ bytes_of n (w / 256)

-- A section to be written: where its name stands, its type, its contents, and the bytes of the
-- header that the loader does not read.
pub record Section : Type 0 where
  pub name_offset : ℕ
  pub type : ℕ
  pub flags : List ℕ
  pub contents : List ℕ
  pub links : List ℕ

-- The numbers and the unread bytes of a section's header fit into it.
pub record IsSection (s : Section) : Type 0 where
  pub name_fits : s.name_offset < 2 ^ 32
  pub type_fits : s.type < 2 ^ 32
  pub flags_size : length s.flags ≡ 16
  pub links_size : length s.links ≡ 24

abbrev pub shdr_at : ℕ → Section → Shdr
shdr_at offset s = record {
  sh_name = s.name_offset;
  sh_type = s.type;
  sh_offset = offset;
  sh_size = length s.contents;
}

abbrev pub shdr_bytes : ℕ → Section → List ℕ
shdr_bytes offset s =
    bytes_of 4 s.name_offset
    ++ (bytes_of 4 s.type
        ++ (s.flags ++ (bytes_of 8 offset ++ (bytes_of 8 (length s.contents) ++ s.links))))

abbrev pub contents_of : List Section → List ℕ
contents_of [] = []
contents_of (s ∷ ss) = s.contents ++ contents_of ss

-- The headers of sections whose contents stand from an offset on, and their bytes.
abbrev pub headers_from : ℕ → List Section → List Shdr
headers_from offset [] = []
headers_from offset (s ∷ ss) = shdr_at offset s ∷ headers_from (offset + length s.contents) ss

abbrev pub table_from : ℕ → List Section → List ℕ
table_from offset [] = []
table_from offset (s ∷ ss) = shdr_bytes offset s ++ table_from (offset + length s.contents) ss

-- A file: its sections, the index of the one with the names, and the bytes of its header that the
-- loader does not read.
pub record Object : Type 0 where
  pub ident : List ℕ
  pub flags : List ℕ
  pub sections : List Section
  pub names_index : ℕ

abbrev pub ehdr_for : Object → Ehdr
ehdr_for o = record {
  e_shoff = 64 + length (contents_of o.sections);
  e_shentsize = 64;
  e_shnum = length o.sections;
  e_shstrndx = o.names_index;
}

abbrev pub ehdr_bytes : Object → List ℕ
ehdr_bytes o =
    o.ident
    ++ (bytes_of 8 (64 + length (contents_of o.sections))
        ++ (o.flags
            ++ (bytes_of 2 64 ++ (bytes_of 2 (length o.sections) ++ bytes_of 2 o.names_index))))

unfoldable pub image : Object → List ℕ
image o = ehdr_bytes o ++ (contents_of o.sections ++ table_from 64 o.sections)

pub record IsObject (o : Object) : Type 0 where
  pub ident_size : length o.ident ≡ 40
  pub flags_size : length o.flags ≡ 10
  pub sections_fit : length o.sections < 2 ^ 16
  pub index_fits : o.names_index < 2 ^ 16
  pub file_fits : 64 + length (contents_of o.sections) < 2 ^ 63
  pub all_fit : All IsSection o.sections

-- Bytes from the middle of a list.
pub take-append : (b c : List ℕ) (n : ℕ) → length b ≡ n → take n (b ++ c) ≡ b
take-append [] c zero e = refl
take-append [] c (suc n) e = ground arith
take-append (x ∷ b) c zero e = ground arith
take-append (x ∷ b) c (suc n) e = ap (λ l. x ∷ l) (take-append b c n (omega (arith, e)))

pub drop-append : (a b : List ℕ) (m n : ℕ) → m ≡ length a + n → drop m (a ++ b) ≡ drop n b
drop-append [] b m n e = ap (λ k. drop k b) (omega (arith, e))
drop-append (x ∷ a) b zero n e = absurd (omega (arith, e))
drop-append (x ∷ a) b (suc m) n e = drop-append a b m n (omega (arith, e))

pub le-bytes_of_2 : (w : ℕ) → w < 2 ^ 16 → le (bytes_of 2 w) ≡ w
le-bytes_of_2 w h = omega arith

pub le-bytes_of_4 : (w : ℕ) → w < 2 ^ 32 → le (bytes_of 4 w) ≡ w
le-bytes_of_4 w h = omega arith

pub le-bytes_of_8 : (w : ℕ) → w < 2 ^ 64 → le (bytes_of 8 w) ≡ w
le-bytes_of_8 w h = omega arith

module _ (offset : ℕ) (s : Section) (w : IsSection s) where
  abbrev rest_of : List ℕ
  rest_of = bytes_of 8 offset ++ (bytes_of 8 (length s.contents) ++ s.links)

  offset_field : offset < 2 ^ 64 → field 24 8 (shdr_bytes offset s) ≡ offset
  offset_field fits =
      ap (λ l. le (take 8 l)) (drop-append s.flags rest_of 16 0 (omega (arith, w.flags_size)))
      ∙ le-bytes_of_8 offset fits

  size_field : length s.contents < 2 ^ 64 → field 32 8 (shdr_bytes offset s) ≡ length s.contents
  size_field fits =
      ap (λ l. le (take 8 l)) (drop-append s.flags rest_of 24 8 (omega (arith, w.flags_size)))
      ∙ le-bytes_of_8 (length s.contents) fits

  -- The reader finds in a section's header what was written.
  pub shdr_of-shdr_bytes :
      offset < 2 ^ 64
      → length s.contents < 2 ^ 64
      → shdr_of (shdr_bytes offset s) ≡ shdr_at offset s
  shdr_of-shdr_bytes fits small = λ i. record {
    sh_name = le-bytes_of_4 s.name_offset w.name_fits i;
    sh_type = le-bytes_of_4 s.type w.type_fits i;
    sh_offset = offset_field fits i;
    sh_size = size_field small i;
  }

  pub length-shdr_bytes : length (shdr_bytes offset s) ≡ 64
  length-shdr_bytes = omega (arith, length-append s.flags rest_of, w.flags_size, w.links_size)

module _ (o : Object) (w : IsObject o) where
  abbrev counts_of : List ℕ
  counts_of = bytes_of 2 64 ++ (bytes_of 2 (length o.sections) ++ bytes_of 2 o.names_index)

  abbrev after_ident : List ℕ
  after_ident = bytes_of 8 (64 + length (contents_of o.sections)) ++ (o.flags ++ counts_of)

  ident_dropped : (m n : ℕ) → m ≡ 40 + n → drop m (ehdr_bytes o) ≡ drop n after_ident
  ident_dropped m n e = drop-append o.ident after_ident m n (omega (arith, e, w.ident_size))

  flags_dropped : (m n : ℕ) → m ≡ 58 + n → drop m (ehdr_bytes o) ≡ drop n counts_of
  flags_dropped m n e =
      ident_dropped m (18 + n) (omega (arith, e))
      ∙ drop-append (bytes_of 8 (64 + length (contents_of o.sections))) (o.flags ++ counts_of)
          (18 + n) (10 + n) (omega arith)
      ∙ drop-append o.flags counts_of (10 + n) n (omega (arith, w.flags_size))

  pub ehdr_of-ehdr_bytes : ehdr_of (ehdr_bytes o) ≡ ehdr_for o
  ehdr_of-ehdr_bytes = λ i. record {
    e_shoff =
        (ap (λ l. le (take 8 l)) (ident_dropped 40 0 (omega arith))
            ∙ le-bytes_of_8 (64 + length (contents_of o.sections)) (omega (arith, w.file_fits)))
          i;
    e_shentsize = ap (λ l. le (take 2 l)) (flags_dropped 58 0 (omega arith)) i;
    e_shnum =
        (ap (λ l. le (take 2 l)) (flags_dropped 60 2 (omega arith))
            ∙ le-bytes_of_2 (length o.sections) w.sections_fit)
          i;
    e_shstrndx =
        (ap (λ l. le (take 2 l)) (flags_dropped 62 4 (omega arith))
            ∙ le-bytes_of_2 o.names_index w.index_fits)
          i;
  }

  pub length-ehdr_bytes : length (ehdr_bytes o) ≡ 64
  length-ehdr_bytes = omega (
    arith,
    length-append o.ident after_ident,
    length-append o.flags counts_of,
    w.ident_size,
    w.flags_size,
  )
