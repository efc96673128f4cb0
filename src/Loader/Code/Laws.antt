-- ===== src/Loader/Code/Laws.antt =====
-- `loadCodeSections`: when it succeeds.
use platform_packages_module.Prelude.{
  ℕ, List, [], ◌∷◌, ◌≡◌, none, some, true, false, refl, Text, pos, arith, ◌⊎◌, inl, inr, ◌↔◌,
  Bool-cases, subst, ap, Option-cases, ℤ, ◌≢◌,
}
use platform_packages_module.Loader.Bpffs.{ok, errno, Answer-cases, ProgDef, Bpffs, in_range}
use platform_packages_module.Loader.Relo.{CodeSection}
use platform_packages_module.Loader.Code.{
  prog_pin_loc, prog_request, pin_prog, obtain_prog, load_section, load_sections, Step, go_on,
  return,
}

module _ (sys : Bpffs) (kvers : ℕ) (prefix obj_name license : Text) where
  -- The turns of the loop that go on: a program outside its range of kernel versions, a program
  -- that was pinned before, an optional one that the kernel refuses, and a new one that is pinned
  -- and gets its mode and its owner.
  pub data Turn : sys.World → CodeSection → sys.World → Type 0 where
    skipped :
        {w : sys.World} {c : CodeSection} {def : ProgDef}
        → c.prog_def ≡ some def
        → in_range kvers def.min_kver def.max_kver ≡ false
        → Turn w c w
    reused :
        {w w1 : sys.World} {c : CodeSection} {def : ProgDef} {fd : ℕ}
        → c.prog_def ≡ some def
        → in_range kvers def.min_kver def.max_kver ≡ true
        → sys.exists w (prog_pin_loc sys kvers prefix obj_name license c) ≡ true
        → sys.retrieve_prog w (prog_pin_loc sys kvers prefix obj_name license c) ≡ (w1, ok fd)
        → Turn w c w1
    refused :
        {w w1 : sys.World} {c : CodeSection} {def : ProgDef} {err : ℕ}
        → c.prog_def ≡ some def
        → in_range kvers def.min_kver def.max_kver ≡ true
        → sys.exists w (prog_pin_loc sys kvers prefix obj_name license c) ≡ false
        → sys.load_prog w (prog_request sys kvers prefix obj_name license c) ≡ (w1, errno err)
        → def.optional ≡ true
        → Turn w c w1
    pinned :
        {w w1 w2 w3 w4 : sys.World} {c : CodeSection} {def : ProgDef} {fd : ℕ}
        → c.prog_def ≡ some def
        → in_range kvers def.min_kver def.max_kver ≡ true
        → sys.exists w (prog_pin_loc sys kvers prefix obj_name license c) ≡ false
        → sys.load_prog w (prog_request sys kvers prefix obj_name license c) ≡ (w1, ok fd)
        → sys.pin w1 fd (prog_pin_loc sys kvers prefix obj_name license c) ≡ (w2, none)
        → sys.chmod w2 (prog_pin_loc sys kvers prefix obj_name license c) 288 ≡ (w3, none)
        → sys.chown w3 (prog_pin_loc sys kvers prefix obj_name license c) def.uid def.gid
          ≡ (w4, none)
        → Turn w c w4

  pub data Turns : sys.World → List CodeSection → sys.World → Type 0 where
    finished : {w : sys.World} → Turns w [] w
    turn :
        {w w1 w2 : sys.World} {c : CodeSection} {cs : List CodeSection}
        → Turn w c w1
        → Turns w1 cs w2
        → Turns w (c ∷ cs) w2

  Turn-load_section :
      {w w' : sys.World} {c : CodeSection}
      → Turn w c w'
      → load_section sys kvers prefix obj_name license w c ≡ (w', go_on)
  unfolding load_section obtain_prog pin_prog
  Turn-load_section (skipped d r) = ground (arith, d, r)
  Turn-load_section (reused d r e f) = ground (arith, d, r, e, f)
  Turn-load_section (refused d r e f o) = ground (arith, d, r, e, f, o)
  Turn-load_section (pinned d r e f p m o) = ground (arith, d, r, e, f, p, m, o)

  load_section-Turn :
      (w : sys.World) (c : CodeSection)
      → (load_section sys kvers prefix obj_name license w c).1 ≡ go_on
      → Turn w c (load_section sys kvers prefix obj_name license w c).0
  unfolding load_section obtain_prog pin_prog
  load_section-Turn w c h =
      let path = prog_pin_loc sys kvers prefix obj_name license c in
      let found = sys.retrieve_prog w path in
      let loaded = sys.load_prog w (prog_request sys kvers prefix obj_name license c) in
      elim (Option-cases c.prog_def) [
        | inl d ↦ ground (arith, h, d)
        | inr (def, d) ↦ elim (Bool-cases (in_range kvers def.min_kver def.max_kver)) [
          | inr r ↦ subst (λ x. Turn w c x) (ground (arith, d, r)) (skipped d r)
          | inl r ↦ elim (Bool-cases (sys.exists w path)) [
            | inl e ↦ elim (Answer-cases found.1) [
              | inl (fd, f) ↦
                  subst (λ x. Turn w c x) (ground (arith, d, r, e, f))
                    (reused d r e (ap (λ a. (found.0, a)) f))
              | inr (err, f) ↦ ground (arith, h, d, r, e, f)
            ]
            | inr e ↦ elim (Answer-cases loaded.1) [
              | inl (fd, f) ↦
                  let pin = sys.pin loaded.0 fd path in
                  let mode = sys.chmod pin.0 path 288 in
                  let owner = sys.chown mode.0 path def.uid def.gid in
                  let pin_ok : pin.1 ≡ none = ground (arith, h, d, r, e, f) in
                  let mode_ok : mode.1 ≡ none = ground (arith, h, d, r, e, f, pin_ok) in
                  let owner_ok : owner.1 ≡ none = ground (arith, h, d, r, e, f, pin_ok, mode_ok) in
                  subst (λ x. Turn w c x) (ground (arith, d, r, e, f, pin_ok, mode_ok, owner_ok))
                    (pinned d r e (ap (λ a. (loaded.0, a)) f) (ap (λ a. (pin.0, a)) pin_ok)
                      (ap (λ a. (mode.0, a)) mode_ok) (ap (λ a. (owner.0, a)) owner_ok))
              | inr (err, f) ↦
                  subst (λ x. Turn w c x) (ground (arith, d, r, e, f))
                    (refused d r e (ap (λ a. (loaded.0, a)) f) (ground (arith, h, d, r, e, f)))
            ]
          ]
        ]
      ]

  load_section_fails :
      (w : sys.World) (c : CodeSection)
      → (load_section sys kvers prefix obj_name license w c).1 ≢ return (pos 0)
  unfolding load_section obtain_prog pin_prog
  load_section_fails w c h = ground arith

  Step-cases : (s : Step) → (s ≡ go_on) ⊎ ((ret : ℤ) × (s ≡ return ret))
  Step-cases go_on = inl refl
  Step-cases (return ret) = inr (ret, refl)

  load_sections-Turns :
      (w w' : sys.World) (cs : List CodeSection)
      → load_sections sys kvers prefix obj_name license w cs ≡ (w', pos 0)
      → Turns w cs w'
  unfolding load_sections
  load_sections-Turns w w' [] h = subst (λ x. Turns w [] x) (ap (λ p. p.0) h) finished
  load_sections-Turns w w' (c ∷ cs) h =
      let step = load_section sys kvers prefix obj_name license w c in
      elim (Step-cases step.1) [
        | inl e ↦
            turn (load_section-Turn w c e) (load_sections-Turns step.0 w' cs (ground (arith, h, e)))
        | inr (ret, e) ↦ ground (arith, h, e, load_section_fails w c)
      ]

  Turns-load_sections :
      {w w' : sys.World} {cs : List CodeSection}
      → Turns w cs w'
      → load_sections sys kvers prefix obj_name license w cs ≡ (w', pos 0)
  unfolding load_sections
  Turns-load_sections finished = refl
  Turns-load_sections (turn t ts) = ground (arith, Turn-load_section t, Turns-load_sections ts)

  -- `loadCodeSections` succeeds, leaving the kernel in a state, exactly when each of its turns goes
  -- on, up to that state: a program is passed over outside its kernel versions, taken as it is if it
  -- was pinned before, or loaded and pinned, and only an optional one may be refused.
  pub load_sections_iff :
      (w w' : sys.World) (cs : List CodeSection)
      → (load_sections sys kvers prefix obj_name license w cs ≡ (w', pos 0)) ↔ Turns w cs w'
  load_sections_iff w w' cs = (load_sections-Turns w w' cs, λ t. Turns-load_sections t)
