-- ===== src/Loader/Elf/Headers.antt =====
-- Reading back the header and the table of sections of a file that a linker wrote (Image).
use platform_packages_module.Prelude.{
  ℕ, ◌+◌, ◌*◌, ◌^◌, ◌<◌, List, [], ◌∷◌, ◌++◌, ◌≡◌, length, arith, refl, take, drop, replicate,
  length-append, append_assoc, append-nil, ap, sym, ◌∙◌, All, negsuc, ℤ,
}
use platform_packages_module.Loader.Stream.{Stream, value, opened, read_at}
use platform_packages_module.Loader.Elf.{
  Ehdr, shdr_of, structs, read_elf_header, read_section_headers_all,
}
use platform_packages_module.Loader.Elf.Image.{
  Section, IsSection, shdr_at, shdr_bytes, contents_of, headers_from, table_from, Object, ehdr_for,
  ehdr_bytes, image, IsObject, take-append, drop-append, shdr_of-shdr_bytes, length-shdr_bytes,
  ehdr_of-ehdr_bytes, length-ehdr_bytes,
}

drop-append_0 : (a b : List ℕ) (k : ℕ) → k ≡ length a → drop k (a ++ b) ≡ b
drop-append_0 a b k e = drop-append a b k 0 (omega (arith, e))

-- A part of the file that is read whole.
pub read_at-part :
    (a b c bytes : List ℕ) (offset n : ℕ) (short : ℤ)
    → bytes ≡ a ++ (b ++ c)
    → offset ≡ length a
    → n ≡ length b
    → offset < 2 ^ 63
    → read_at offset n short (opened bytes) ≡ (opened bytes, value b)
unfolding read_at
read_at-part a b c bytes offset n short e o l small =
    let part : take n (drop offset bytes) ≡ b =
      ap (λ x. take n (drop offset x)) e
      ∙ ap (λ x. take n x) (drop-append_0 a (b ++ c) offset o)
      ∙ take-append b c n (sym l) in
    let size : length bytes ≡ length a + (length b + length c) =
      ap (λ (x : List ℕ). length x) e
      ∙ length-append a (b ++ c)
      ∙ ap (λ (x : ℕ). length a + x) (length-append b c) in
    ground (arith, part, size, o, l)

length-table_from :
    (offset : ℕ) (ss : List Section)
    → All IsSection ss
    → length (table_from offset ss) ≡ 64 * length ss
length-table_from offset [] w = refl
length-table_from offset (s ∷ ss) (w, ws) = omega (
  arith,
  length-append (shdr_bytes offset s) (table_from (offset + length s.contents) ss),
  length-shdr_bytes offset s w,
  length-table_from (offset + length s.contents) ss ws,
)

-- The table of headers is read back.
structs-table_from :
    (offset : ℕ) (ss : List Section) (pad : List ℕ)
    → All IsSection ss
    → offset + length (contents_of ss) < 2 ^ 63
    → structs shdr_of 64 (length ss) (table_from offset ss ++ pad) ≡ headers_from offset ss
unfolding structs
structs-table_from offset [] pad w small = refl
structs-table_from offset (s ∷ ss) pad (w, ws) small =
    let next = offset + length s.contents in
    let size = length-append s.contents (contents_of ss) in
    let apart : table_from offset (s ∷ ss) ++ pad
        ≡ shdr_bytes offset s ++ (table_from next ss ++ pad) =
      append_assoc (shdr_bytes offset s) (table_from next ss) pad in
    let first : shdr_of (take 64 (table_from offset (s ∷ ss) ++ pad)) ≡ shdr_at offset s =
      ap (λ l. shdr_of (take 64 l)) apart
      ∙ ap shdr_of (
          take-append (shdr_bytes offset s) (table_from next ss ++ pad) 64
            (length-shdr_bytes offset s w))
      ∙ shdr_of-shdr_bytes offset s w (omega (arith, small, size)) (omega (arith, small, size)) in
    let others : structs shdr_of 64 (length ss) (drop 64 (table_from offset (s ∷ ss) ++ pad))
        ≡ headers_from next ss =
      ap (λ l. structs shdr_of 64 (length ss) (drop 64 l)) apart
      ∙ ap (λ l. structs shdr_of 64 (length ss) l)
          (drop-append_0 (shdr_bytes offset s) (table_from next ss ++ pad) 64
            (sym (length-shdr_bytes offset s w)))
      ∙ structs-table_from next ss pad ws (omega (arith, small, size)) in
    λ i. first i ∷ others i

module _ (o : Object) (w : IsObject o) where
  abbrev file : Stream
  file = opened (image o)

  pub read_elf_header-image : read_elf_header file ≡ (file, value (ehdr_for o))
  unfolding read_elf_header
  read_elf_header-image =
      let got =
        read_at-part [] (ehdr_bytes o) (contents_of o.sections ++ table_from 64 o.sections)
          (image o) 0 64 (negsuc 0) (unfold image in refl) refl (sym (length-ehdr_bytes o w))
          (omega arith) in
      rw got (ap (λ (e : Ehdr). (file, value e)) (ehdr_of-ehdr_bytes o w))

  pub read_section_headers_all-image :
      read_section_headers_all file ≡ (file, value (headers_from 64 o.sections))
  unfolding read_section_headers_all
  read_section_headers_all-image =
      let table = table_from 64 o.sections in
      let size = length-table_from 64 o.sections w.all_fit in
      let start = length-append (ehdr_bytes o) (contents_of o.sections) in
      let whole : image o ≡ (ehdr_bytes o ++ contents_of o.sections) ++ (table ++ []) =
        unfold image in
        (sym (append_assoc (ehdr_bytes o) (contents_of o.sections) table)
          ∙ ap (λ l. (ehdr_bytes o ++ contents_of o.sections) ++ l) (sym (append-nil table))) in
      let got =
        read_at-part (ehdr_bytes o ++ contents_of o.sections) table [] (image o)
          (64 + length (contents_of o.sections)) (length o.sections * 64) (negsuc 11) whole
          (omega (arith, start, length-ehdr_bytes o w)) (omega (arith, size)) w.file_fits in
      let headers =
        structs-table_from 64 o.sections (replicate (length o.sections * 64) 0) w.all_fit
          w.file_fits in
      ground (arith, read_elf_header-image, got, headers, size)
