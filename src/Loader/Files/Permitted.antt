-- ===== src/Loader/Files/Permitted.antt =====
-- What `loadProg` reads of a file: programs of permitted types, before and after relocation.
use platform_packages_module.Prelude.{
  ℕ, List, [], ◌∷◌, Option, none, some, ◌≡◌, sym, Text, codes, All, arith, subst, Option-cases, inl,
  inr, pos,
}
use platform_packages_module.LibBase.{LibBase}
use platform_packages_module.Loader.Stream.{Answer, code, outside, value, try}
use platform_packages_module.Loader.Stream.Laws.{
  Ensures, Ensures-bind, Ensures-then, Tried, Ensures-try,
}
use platform_packages_module.Loader.Elf.{c_str, read_section_by_name}
use platform_packages_module.Loader.Sections.{read_code_sections}
use platform_packages_module.Loader.Sections.Laws.{IsPermitted, read_code_sections-IsPermitted}
use platform_packages_module.Loader.Relo.{CodeSection, apply_map_relo}
use platform_packages_module.Loader.Relo.Laws.{SectionsKeep, relo_sections-SectionsKeep}
use platform_packages_module.Loader.Objects.{ElfObject}
use platform_packages_module.Loader.Files.{
  read_maps, read_symbol_names, read_after_programs, read_after_license, read_after_critical,
  read_programs, read_license, read_object, object_with,
}

module _ (fuse : ℕ) (allowed : Option (List ℕ)) where
  abbrev pub ProgramsPermitted : ElfObject → Type 0
  ProgramsPermitted elf = All (IsPermitted fuse allowed) elf.code

  module _ (base : LibBase) where
    read_after_programs-ProgramsPermitted :
        (elf : ElfObject) (sections : Answer (List CodeSection))
        → ProgramsPermitted elf
        → Tried (All (IsPermitted fuse allowed)) sections
        → Ensures ProgramsPermitted (read_after_programs elf sections)
    unfolding read_after_programs
    read_after_programs-ProgramsPermitted elf outside e h = λ s. tt
    read_after_programs-ProgramsPermitted elf (code c) e h = λ s. e
    read_after_programs-ProgramsPermitted elf (value cs) e h =
        Ensures-then ProgramsPermitted read_maps _
          (λ maps. Ensures-then ProgramsPermitted read_symbol_names _ (λ names s. h))

    read_programs-ProgramsPermitted :
        (elf : ElfObject)
        → ProgramsPermitted elf
        → Ensures ProgramsPermitted (read_programs base fuse allowed elf)
    unfolding read_programs
    read_programs-ProgramsPermitted elf e =
        Ensures-bind (Tried (All (IsPermitted fuse allowed))) ProgramsPermitted
          (try (read_code_sections base fuse allowed)) _
          (Ensures-try (All (IsPermitted fuse allowed)) (read_code_sections base fuse allowed)
            (read_code_sections-IsPermitted fuse allowed base))
          (λ sections. read_after_programs-ProgramsPermitted elf sections e)

    read_after_license-ProgramsPermitted :
        (critical : Option Text) (elf : ElfObject) (license : Answer (List ℕ))
        → ProgramsPermitted elf
        → Ensures ProgramsPermitted (read_after_license base fuse allowed critical elf license)
    unfolding read_after_license
    read_after_license-ProgramsPermitted critical elf outside e = λ s. tt
    read_after_license-ProgramsPermitted critical elf (code c) e = λ s. e
    read_after_license-ProgramsPermitted none elf (value bs) e = λ s. tt
    read_after_license-ProgramsPermitted (some shown) elf (value bs) e =
        elim (Option-cases (c_str bs)) [
          | inl f ↦ rw (f, read_after_license) (λ s. tt)
          | inr (text, f) ↦
              rw (f, read_after_license)
                (read_programs-ProgramsPermitted (record elf { license = text }) e)
        ]

    read_license-ProgramsPermitted :
        (critical : Option Text) (elf : ElfObject)
        → ProgramsPermitted elf
        → Ensures ProgramsPermitted (read_license base fuse allowed critical elf)
    unfolding read_license
    read_license-ProgramsPermitted critical elf e =
        Ensures-then ProgramsPermitted (try (read_section_by_name (codes "license"))) _
          (λ license. read_after_license-ProgramsPermitted critical elf license e)

    read_after_critical-ProgramsPermitted :
        (critical : Answer (List ℕ))
        → Ensures ProgramsPermitted (read_after_critical base fuse allowed critical)
    unfolding read_after_critical
    read_after_critical-ProgramsPermitted outside = λ s. tt
    read_after_critical-ProgramsPermitted (code c) =
        read_license-ProgramsPermitted (some []) (object_with c) tt
    read_after_critical-ProgramsPermitted (value bs) =
        read_license-ProgramsPermitted (c_str bs) (object_with (pos 0)) tt

    -- Every program of an object that was read has a type that is allowed.
    pub read_object-ProgramsPermitted : Ensures ProgramsPermitted (read_object base fuse allowed)
    unfolding read_object
    read_object-ProgramsPermitted =
        Ensures-then ProgramsPermitted (try (read_section_by_name (codes "critical"))) _
          read_after_critical-ProgramsPermitted

  SectionsKeep-IsPermitted :
      (fds : List (Option ℕ)) (cs ds : List CodeSection)
      → SectionsKeep fds cs ds
      → All (IsPermitted fuse allowed) cs
      → All (IsPermitted fuse allowed) ds
  SectionsKeep-IsPermitted fds [] [] k a = tt
  SectionsKeep-IsPermitted fds [] (d ∷ ds) k a = absurd k
  SectionsKeep-IsPermitted fds (c ∷ cs) [] k a = absurd k
  SectionsKeep-IsPermitted fds (c ∷ cs) (d ∷ ds) (same, loads, k) (p, a) =
      (subst (IsPermitted fuse allowed) (sym same) p, SectionsKeep-IsPermitted fds cs ds k a)

  pub apply_map_relo-IsPermitted :
      (symbol_name : ℕ → Answer Text) (names : Option (List Text)) (fds : List (Option ℕ))
      (cs ds : List CodeSection)
      → apply_map_relo symbol_name names fds cs ≡ some ds
      → All (IsPermitted fuse allowed) cs
      → All (IsPermitted fuse allowed) ds
  unfolding apply_map_relo
  apply_map_relo-IsPermitted symbol_name none fds cs ds e a = ground (arith, e, a)
  apply_map_relo-IsPermitted symbol_name (some names) fds cs ds e a =
      SectionsKeep-IsPermitted fds cs ds (relo_sections-SectionsKeep symbol_name names fds cs e) a
