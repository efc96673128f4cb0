-- ===== src/Loader/Elf/RoundTrip.antt =====
-- Reading back the sections of an object file that a linker wrote (Image).
use platform_packages_module.Prelude.{
  ℕ, zero, suc, ◌+◌, List, [], ◌∷◌, ◌++◌, ◌≡◌, ◌≢◌, none, some, false, Text, length, arith, refl,
  drop, length-append, append_assoc, ap, sym, ◌∙◌, All, any, ◌==◌, text_eq, text_eq_iff,
  text_eq_refl, Option-cases, Bool-cases, get_elem?, negsuc, inl, inr,
}
use platform_packages_module.Loader.Stream.{value, opened}
use platform_packages_module.Loader.Elf.{
  is_empty_table, read_section, read_section_by_idx, read_section_header_strtab, c_str, same_name,
  has_name, find_section, read_section_by_name,
}
use platform_packages_module.Loader.Elf.Image.{
  Section, shdr_at, contents_of, headers_from, table_from, Object, ehdr_bytes, image, IsObject,
  length-ehdr_bytes,
}
use platform_packages_module.Loader.Elf.Headers.{
  read_at-part, read_elf_header-image, read_section_headers_all-image,
}

-- A C string that ends within some bytes compares as a text.
same_name-c_str :
    (bs name : Text) {t : Text}
    → any (λ c. c == 0) name ≡ false
    → c_str bs ≡ some t
    → same_name bs name ≡ some (text_eq t name)
unfolding same_name c_str
same_name-c_str [] name no_nul e = cc
same_name-c_str (b ∷ bs) [] no_nul e = elim (Option-cases (c_str bs)) [
  | inl f ↦ ground (arith, e, f)
  | inr (t, f) ↦ ground (arith, e, f)
]
same_name-c_str (b ∷ bs) (c ∷ cs) no_nul e = elim (Option-cases (c_str bs)) [
  | inl f ↦ ground (arith, e, f)
  | inr (t, f) ↦ ground (arith, e, f, same_name-c_str bs cs {t = t})
]

contents_of-append :
    (before after : List Section)
    → contents_of (before ++ after) ≡ contents_of before ++ contents_of after
contents_of-append [] after = refl
contents_of-append (s ∷ before) after =
    ap (λ l. s.contents ++ l) (contents_of-append before after)
    ∙ sym (append_assoc s.contents (contents_of before) (contents_of after))

get_elem-headers_from :
    (offset : ℕ) (before : List Section) (s : Section) (after : List Section)
    → get_elem? (headers_from offset (before ++ (s ∷ after))) (length before)
      ≡ some (shdr_at (offset + length (contents_of before)) s)
get_elem-headers_from offset [] s after = ap (λ n. some (shdr_at n s)) (omega arith)
get_elem-headers_from offset (x ∷ before) s after =
    get_elem-headers_from (offset + length x.contents) before s after
    ∙ ap (λ n. some (shdr_at n s)) (omega (arith, length-append x.contents (contents_of before)))

drop-nil : (n : ℕ) → drop {A = ℕ} n [] ≡ []
drop-nil zero = refl
drop-nil (suc n) = refl

regroup : (h p c q t : List ℕ) → h ++ ((p ++ (c ++ q)) ++ t) ≡ (h ++ p) ++ (c ++ (q ++ t))
regroup h p c q t = simp append_assoc

-- The section has this name in the table of names.
abbrev pub IsNamed : List ℕ → Section → Text → Type 0
IsNamed strtab s name = c_str (drop s.name_offset strtab) ≡ some name

-- The section has another name.
abbrev pub IsOther : List ℕ → Text → Section → Type 0
IsOther strtab name s = (other : Text) × IsNamed strtab s other × (other ≢ name)

has_name-IsNamed :
    (strtab : List ℕ) (s : Section) (offset : ℕ) (name : Text) {t : Text}
    → any (λ c. c == 0) name ≡ false
    → IsNamed strtab s t
    → has_name strtab (shdr_at offset s) name ≡ some (text_eq t name)
unfolding has_name is_empty_table
has_name-IsNamed [] s offset name no_nul e =
    let gone : c_str (drop s.name_offset []) ≡ none =
      unfold c_str in ap c_str (drop-nil s.name_offset) in
    cc (gone, e)
has_name-IsNamed (b ∷ bs) s offset name no_nul e =
    same_name-c_str (drop s.name_offset (b ∷ bs)) name no_nul e

module _ (o : Object) (w : IsObject o) where
  read_section-image :
      (before : List Section) (s : Section) (after : List Section)
      → o.sections ≡ before ++ (s ∷ after)
      → read_section (shdr_at (64 + length (contents_of before)) s) (opened (image o))
        ≡ (opened (image o), value s.contents)
  unfolding read_section
  read_section-image before s after e =
      let table = table_from 64 o.sections in
      let split : contents_of o.sections ≡ contents_of before ++ (s.contents ++ contents_of after) =
        ap contents_of e ∙ contents_of-append before (s ∷ after) in
      let whole : image o
          ≡ (ehdr_bytes o ++ contents_of before) ++ (s.contents ++ (contents_of after ++ table)) =
        unfold image in
        (ap (λ l. ehdr_bytes o ++ (l ++ table)) split
          ∙ regroup (ehdr_bytes o) (contents_of before) s.contents (contents_of after) table) in
      let size : length (contents_of o.sections)
          ≡ length (contents_of before) + length (s.contents ++ contents_of after) =
        ap (λ (l : List ℕ). length l) split
        ∙ length-append (contents_of before) (s.contents ++ contents_of after) in
      read_at-part (ehdr_bytes o ++ contents_of before) s.contents (contents_of after ++ table)
        (image o) (64 + length (contents_of before)) (length s.contents) (negsuc 0) whole
        (omega (arith, length-append (ehdr_bytes o) (contents_of before), length-ehdr_bytes o w))
        refl (omega (arith, size, w.file_fits))

  find_section-headers_from :
      (strtab : List ℕ) (name : Text) (front before : List Section) (s : Section)
      (after : List Section)
      → any (λ c. c == 0) name ≡ false
      → o.sections ≡ front ++ (before ++ (s ∷ after))
      → All (IsOther strtab name) before
      → IsNamed strtab s name
      → find_section strtab name
          (headers_from (64 + length (contents_of front)) (before ++ (s ∷ after)))
          (opened (image o))
        ≡ (opened (image o), value s.contents)
  unfolding find_section
  find_section-headers_from strtab name front [] s after no_nul e others named = ground (
    arith,
    has_name-IsNamed strtab s (64 + length (contents_of front)) name no_nul named,
    text_eq_refl name,
    read_section-image front s after e,
  )
  find_section-headers_from strtab name front (x ∷ before) s after no_nul e
        ((t, is_t, differs), others) named =
      let next : 64 + length (contents_of (front ++ (x ∷ [])))
          ≡ 64 + length (contents_of front) + length x.contents =
        omega (
          arith,
          ap (λ (l : List ℕ). length l) (contents_of-append front (x ∷ [])),
          length-append (contents_of front) (contents_of (x ∷ [])),
          length-append x.contents [],
        ) in
      let skip = has_name-IsNamed strtab x (64 + length (contents_of front)) name no_nul is_t in
      let unequal : text_eq t name ≡ false = elim (Bool-cases (text_eq t name)) [
        | inl same ↦ absurd (differs ((text_eq_iff t name).0 same))
        | inr differ ↦ differ
      ] in
      let rest =
        find_section-headers_from strtab name (front ++ (x ∷ [])) before s after no_nul
          (e ∙ sym (append_assoc front (x ∷ []) (before ++ (s ∷ after)))) others named in
      let moved =
        ap
          (λ n.
            find_section strtab name (headers_from n (before ++ (s ∷ after))) (opened (image o)))
          (sym next)
        ∙ rest in
      ground (arith, skip, unequal, moved)

  strtab_index :
      (before : List Section) (names : Section) (after : List Section)
      → o.sections ≡ before ++ (names ∷ after)
      → o.names_index ≡ length before
      → read_section_header_strtab (opened (image o)) ≡ (opened (image o), value names.contents)
  unfolding read_section_header_strtab read_section_by_idx
  strtab_index before names after e at =
      let found : get_elem? (headers_from 64 o.sections) o.names_index
          ≡ some (shdr_at (64 + length (contents_of before)) names) =
        ap (λ l. get_elem? (headers_from 64 l) o.names_index) e
        ∙ ap (λ n. get_elem? (headers_from 64 (before ++ (names ∷ after))) n) at
        ∙ get_elem-headers_from 64 before names after in
      ground (
        arith,
        read_elf_header-image o w,
        read_section_headers_all-image o w,
        found,
        read_section-image before names after e,
      )

  -- A section is read back by its name from the file that a linker wrote: the contents of the first
  -- section with that name in the table of names, which the header's index points at. The numbers
  -- fit the file's fields, the name has no zero byte, and the sections before have other names.
  pub read_section_by_name-image :
      (name : Text) (names_before : List Section) (names : Section) (names_after : List Section)
      (before : List Section) (s : Section) (after : List Section)
      → o.sections ≡ names_before ++ (names ∷ names_after)
      → o.names_index ≡ length names_before
      → o.sections ≡ before ++ (s ∷ after)
      → any (λ c. c == 0) name ≡ false
      → All (IsOther names.contents name) before
      → IsNamed names.contents s name
      → read_section_by_name name (opened (image o)) ≡ (opened (image o), value s.contents)
  unfolding read_section_by_name
  read_section_by_name-image name nb names na before s after en at e no_nul others named =
      let listed : find_section names.contents name (headers_from 64 o.sections) (opened (image o))
          ≡ (opened (image o), value s.contents) =
        ap (λ l. find_section names.contents name (headers_from 64 l) (opened (image o))) e
        ∙ find_section-headers_from names.contents name [] before s after no_nul e others named in
      ground (arith, read_section_headers_all-image o w, strtab_index nb names na en at, listed)
