-- ===== src/Loader/Sections/Laws.antt =====
-- `readCodeSections`: what the sections that are read satisfy.
use platform_packages_module.Prelude.{
  ℕ, ◌+◌, List, [], ◌∷◌, ◌++◌, Option, none, some, true, not, ◌==◌, ◌≡◌, ◌≢◌, Text, codes, All,
  is_zero, arith,
}
use platform_packages_module.LibBase.{LibBase}
use platform_packages_module.Loader.Bpffs.{ProgDef}
use platform_packages_module.Loader.Names.{prog_type_unspec, get_section_type, is_allowed_type}
use platform_packages_module.Loader.Stream.{◌>>=◌, pure, undefined}
use platform_packages_module.Loader.Stream.Laws.{Ensures, Ensures-bind, Ensures-then, Ensures-if}
use platform_packages_module.Loader.Elf.{
  Shdr, read_section_headers_all, read_section_by_idx, get_sym_name, is_empty_table,
}
use platform_packages_module.Loader.Symbols.{get_section_sym_names}
use platform_packages_module.Loader.Relo.{CodeSection}
use platform_packages_module.Loader.Sections.{
  Turn, pass_over, push, stop_reading, find_prog_def, read_relocations, complete_section,
  read_allowed_section, read_code_section, code_loop, names_required, read_code_sections,
  read_prog_defs,
}

module _ (fuse : ℕ) (allowed : Option (List ℕ)) where
  -- A program type that is allowed.
  abbrev pub IsPermittedType : ℕ → Type 0
  IsPermittedType type = (type ≢ prog_type_unspec) × (is_allowed_type fuse type allowed ≡ true)

  abbrev pub IsPermitted : CodeSection → Type 0
  IsPermitted c = IsPermittedType c.type

  abbrev Permits : Turn → Type 0
  Permits pass_over = Unit
  Permits (push c) = IsPermitted c
  Permits stop_reading = Unit

  module _ (type : ℕ) (is_type : type ≢ prog_type_unspec)
      (fine : is_allowed_type fuse type allowed ≡ true) where
    complete_section-Permits :
        (old_name : Text) (i : ℕ) (following : List Shdr) (bs : List ℕ) (def : Option ProgDef)
        → Ensures Permits (complete_section type old_name i following bs def)
    unfolding complete_section
    complete_section-Permits old_name i following bs def =
        Ensures-if Permits (is_empty_table bs) _ _ (λ e s. tt)
          (λ e.
            Ensures-then Permits (read_relocations old_name i following) _
              (λ rel s. (is_type, fine)))

    read_allowed_section-Permits :
        (defs : List ProgDef) (def_names : List Text) (old_name : Text) (i : ℕ)
        (following : List Shdr)
        → Ensures Permits (read_allowed_section defs def_names type old_name i following)
    unfolding read_allowed_section
    read_allowed_section-Permits defs def_names old_name i following =
        Ensures-then Permits (read_section_by_idx i) _ (λ bs.
          Ensures-then Permits (get_section_sym_names old_name (some 2)) _ (λ functions.
            Ensures-if Permits (not (is_zero functions.ret)) _ _ (λ e s. tt)
              (λ e. by_names bs functions.names)))
      where
        by_def :
            (bs : List ℕ) (found : Option (Option ProgDef))
            → Ensures Permits (elim found [
              | none ↦ undefined
              | some def ↦ complete_section type old_name i following bs def
            ])
        by_def bs none = λ s. tt
        by_def bs (some def) = complete_section-Permits old_name i following bs def

        by_names :
            (bs : List ℕ) (names : List Text)
            → Ensures Permits (elim names [
              | [] ↦ pure stop_reading
              | first ∷ others ↦ elim (find_prog_def def_names defs (first ++ codes "_def")) [
                | none ↦ undefined
                | some def ↦ complete_section type old_name i following bs def
              ]
            ])
        by_names bs [] = λ s. tt
        by_names bs (first ∷ others) =
            by_def bs (find_prog_def def_names defs (first ++ codes "_def"))

  module _ (base : LibBase) (defs : List ProgDef) (def_names : List Text) where
    read_code_section-Permits :
        (i : ℕ) (sh : Shdr) (following : List Shdr)
        → Ensures Permits (read_code_section defs def_names base fuse allowed i sh following)
    unfolding read_code_section
    read_code_section-Permits i sh following =
        Ensures-then Permits (get_sym_name sh.sh_name) _ (λ name.
          let type = get_section_type base fuse name in
          Ensures-if Permits (type == prog_type_unspec) _ _ (λ e s. tt)
            (λ e.
              Ensures-if Permits (not (is_allowed_type fuse type allowed)) _ _ (λ f s. tt)
                (λ f.
                  read_allowed_section-Permits type (λ z. ground (arith, e, z)) (ground (arith, f))
                    defs def_names name i following)))

    code_loop-IsPermitted :
        (i : ℕ) (shs : List Shdr)
        → Ensures (All IsPermitted) (code_loop defs def_names base fuse allowed i shs)
    unfolding code_loop
    code_loop-IsPermitted i [] = λ s. tt
    code_loop-IsPermitted i (sh ∷ shs) =
        Ensures-bind Permits (All IsPermitted)
          (read_code_section defs def_names base fuse allowed i sh shs) _
          (read_code_section-Permits i sh shs)
          (λ turn permits. by_turn (code_loop-IsPermitted (i + 1) shs) turn permits)
      where
        by_turn :
            Ensures (All IsPermitted) (code_loop defs def_names base fuse allowed (i + 1) shs)
            → (turn : Turn) → Permits turn
            → Ensures (All IsPermitted) (elim turn [
              | pass_over ↦ code_loop defs def_names base fuse allowed (i + 1) shs
              | stop_reading ↦ pure []
              | push c ↦ (do
                rest ← code_loop defs def_names base fuse allowed (i + 1) shs
                pure (c ∷ rest))
            ])
        by_turn others pass_over permits = others
        by_turn others (push c) permits =
            Ensures-bind (All IsPermitted) (All IsPermitted)
              (code_loop defs def_names base fuse allowed (i + 1) shs) _ others
              (λ rest r s. (permits, r))
        by_turn others stop_reading permits = λ s. tt

  -- Every section that `readCodeSections` answers has a program type, and one that is allowed,
  -- whatever the file holds.
  pub read_code_sections-IsPermitted :
      (base : LibBase) → Ensures (All IsPermitted) (read_code_sections base fuse allowed)
  unfolding read_code_sections
  read_code_sections-IsPermitted base =
      Ensures-then (All IsPermitted) read_section_headers_all _ (λ table.
        Ensures-then (All IsPermitted) read_prog_defs _ (λ defs.
          Ensures-then (All IsPermitted) (get_section_sym_names (codes "progs") none) _ (λ named.
            Ensures-if (All IsPermitted) (names_required defs named.ret) _ _ (λ e s. tt)
              (λ e. code_loop-IsPermitted base defs named.names 0 table))))
