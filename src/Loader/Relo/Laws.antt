-- ===== src/Loader/Relo/Laws.antt =====
-- `applyMapRelo`: what relocation can change.
use platform_packages_module.Prelude.{
  ℕ, ◌/◌, List, [], ◌∷◌, ◌≡◌, Option, some, refl, Text, ℤ, arith, get_elem?, set, ◌⊎◌, inl, inr,
  Option-cases, ℤ-cases, to_int32, zero, suc, ap, sym, ◌∙◌,
}
use platform_packages_module.Loader.Bpffs.{Insn}
use platform_packages_module.Loader.Stream.{Answer, Answer-cases}
use platform_packages_module.Loader.Relo.{
  CodeSection, ld_imm_dw, load_of, fd_value, apply_relo, relo_symbol, relo_section, relo_sections,
  Relocated, done, stopped, left_vector,
}

-- The descriptor is one of the maps'.
abbrev pub IsMapFd : List (Option ℕ) → ℤ → Type 0
IsMapFd [] v = ⊥
IsMapFd (fd ∷ fds) v = (v ≡ fd_value fd) ⊎ IsMapFd fds v

-- An instruction that was left alone, or a load of a 64-bit immediate that now loads a map.
abbrev pub OnlyLoad : List (Option ℕ) → Insn → Insn → Type 0
OnlyLoad fds i j = (j ≡ i) ⊎ ((i.code ≡ ld_imm_dw) × (v : ℤ) × IsMapFd fds v × (j ≡ load_of i v))

-- The same of all instructions of a section.
abbrev pub OnlyLoads : List (Option ℕ) → List Insn → List Insn → Type 0
OnlyLoads fds [] [] = Unit
OnlyLoads fds (i ∷ is) (j ∷ js) = OnlyLoad fds i j × OnlyLoads fds is js
OnlyLoads fds _ _ = ⊥

OnlyLoads-refl : (fds : List (Option ℕ)) (is : List Insn) → OnlyLoads fds is is
OnlyLoads-refl fds [] = tt
OnlyLoads-refl fds (i ∷ is) = (inl refl, OnlyLoads-refl fds is)

OnlyLoad-trans :
    (fds : List (Option ℕ)) {x y z : Insn} → OnlyLoad fds x y → OnlyLoad fds y z → OnlyLoad fds x z
OnlyLoad-trans fds (inl p) (inl q) = inl (q ∙ p)
OnlyLoad-trans fds (inl p) (inr (c, v, m, q)) =
    inr (ap (λ i. i.code) (sym p) ∙ c, v, m, q ∙ ap (λ i. load_of i v) p)
OnlyLoad-trans fds (inr (c, v, m, p)) (inl q) = inr (c, v, m, q ∙ p)
OnlyLoad-trans fds (inr (c, v, m, p)) (inr (c', v', m', q)) =
    inr (c, v', m', q ∙ ap (λ i. load_of i v') p)

OnlyLoads-trans :
    (fds : List (Option ℕ)) (xs ys zs : List Insn)
    → OnlyLoads fds xs ys
    → OnlyLoads fds ys zs
    → OnlyLoads fds xs zs
OnlyLoads-trans fds [] [] [] p q = tt
OnlyLoads-trans fds [] [] (z ∷ zs) p q = absurd q
OnlyLoads-trans fds [] (y ∷ ys) zs p q = absurd p
OnlyLoads-trans fds (x ∷ xs) [] zs p q = absurd p
OnlyLoads-trans fds (x ∷ xs) (y ∷ ys) [] p q = absurd q
OnlyLoads-trans fds (x ∷ xs) (y ∷ ys) (z ∷ zs) (p, ps) (q, qs) =
    (OnlyLoad-trans fds p q, OnlyLoads-trans fds xs ys zs ps qs)

set-OnlyLoads :
    (fds : List (Option ℕ)) (is : List Insn) (n : ℕ) (v : ℤ) {i : Insn}
    → IsMapFd fds v
    → get_elem? is n ≡ some i
    → i.code ≡ ld_imm_dw
    → OnlyLoads fds is (set is n (load_of i v))
set-OnlyLoads fds [] n v m h c = tt
set-OnlyLoads fds (i ∷ is) zero v m h c =
    (inr (ground (arith, h, c), v, m, ground (arith, h)), OnlyLoads-refl fds is)
set-OnlyLoads fds (i ∷ is) (suc n) v m h c = (inl refl, set-OnlyLoads fds is n v m h c)

apply_relo-OnlyLoads :
    (fds : List (Option ℕ)) (is : List Insn) (offset : ℕ) (v : ℤ) {js : List Insn}
    → IsMapFd fds v
    → apply_relo is offset v ≡ some js
    → OnlyLoads fds is js
unfolding apply_relo
apply_relo-OnlyLoads fds is offset v {js} m h = elim (ℤ-cases (to_int32 (offset / 8))) [
  | inr (n, below) ↦ ground (arith, rw (below, apply_relo) at h)
  | inl (index, at_index) ↦ elim (Option-cases (get_elem? is index)) [
    | inl e ↦ ground (arith, e, rw (at_index, apply_relo) at h)
    | inr (i, e) ↦ ground (
      arith,
      OnlyLoads-refl fds is,
      set-OnlyLoads fds is index v m e,
      rw (at_index, apply_relo) at h,
    )
  ]
]

relo_symbol-OnlyLoads :
    (every fds : List (Option ℕ)) (is : List Insn) (offset : ℕ) (symbol : Text) (names : List Text)
    {js : List Insn}
    → ((v : ℤ) → IsMapFd fds v → IsMapFd every v)
    → relo_symbol is offset symbol names fds ≡ some js
    → OnlyLoads every is js
unfolding relo_symbol
relo_symbol-OnlyLoads every fds is offset symbol [] m h = ground (arith, OnlyLoads-refl every is)
relo_symbol-OnlyLoads every [] is offset symbol (name ∷ names) {js} m h =
    ground (arith, relo_symbol-OnlyLoads every [] is offset symbol names {js = js} m)
relo_symbol-OnlyLoads every (fd ∷ fds) is offset symbol (name ∷ names) {js} m h = ground (
  arith,
  apply_relo-OnlyLoads every is offset (fd_value fd) {js = js} (m (fd_value fd) (inl refl)),
  relo_symbol-OnlyLoads every fds is offset symbol names {js = js} (λ v p. m v (inr p)),
)

-- The instructions of a section that was relocated, to its end or up to a stop.
abbrev pub Keeps : List (Option ℕ) → List Insn → Relocated (List Insn) → Type 0
Keeps fds is (done js) = OnlyLoads fds is js
Keeps fds is (stopped js) = OnlyLoads fds is js
Keeps fds is left_vector = Unit

Keeps-trans :
    (fds : List (Option ℕ)) (is js : List Insn) (r : Relocated (List Insn))
    → OnlyLoads fds is js
    → Keeps fds js r
    → Keeps fds is r
Keeps-trans fds is js (done ks) p q = OnlyLoads-trans fds is js ks p q
Keeps-trans fds is js (stopped ks) p q = OnlyLoads-trans fds is js ks p q
Keeps-trans fds is js left_vector p q = tt

-- Each section keeps its place, name, type and relocations, and its instructions but for loads.
abbrev pub SectionsKeep : List (Option ℕ) → List CodeSection → List CodeSection → Type 0
SectionsKeep fds [] [] = Unit
SectionsKeep fds (c ∷ cs) (d ∷ ds) =
    (d ≡ record c { insns = d.insns }) × OnlyLoads fds c.insns d.insns × SectionsKeep fds cs ds
SectionsKeep fds _ _ = ⊥

SectionsKeep-refl : (fds : List (Option ℕ)) (cs : List CodeSection) → SectionsKeep fds cs cs
SectionsKeep-refl fds [] = tt
SectionsKeep-refl fds (c ∷ cs) = (refl, OnlyLoads-refl fds c.insns, SectionsKeep-refl fds cs)

module _ (symbol_name : ℕ → Answer Text) (names : List Text) (fds : List (Option ℕ)) where
  relo_section-Keeps :
      (is : List Insn) (rels : List (ℕ × ℕ))
      → Keeps fds is (relo_section symbol_name names fds is rels)
  unfolding relo_section
  relo_section-Keeps is [] = OnlyLoads-refl fds is
  relo_section-Keeps is ((offset, index) ∷ rels) = elim (Answer-cases (symbol_name index)) [
    | inl (inl e) ↦ rw (e, relo_section) tt
    | inl (inr (c, e)) ↦ rw (e, relo_section) (OnlyLoads-refl fds is)
    | inr (symbol, e) ↦ elim (Option-cases (relo_symbol is offset symbol names fds)) [
      | inl f ↦ rw (e, f, relo_section) tt
      | inr (js, f) ↦
          rw (e, f, relo_section)
            (Keeps-trans fds is js (relo_section symbol_name names fds js rels)
              (relo_symbol-OnlyLoads fds fds is offset symbol names (λ v p. p) f)
              (relo_section-Keeps js rels))
    ]
  ]

  -- Relocation, where it stays within its vectors, keeps every section and every instruction, but
  -- for loads of a 64-bit immediate, which get the descriptor of a map.
  pub relo_sections-SectionsKeep :
      (cs : List CodeSection) {ds : List CodeSection}
      → relo_sections symbol_name names fds cs ≡ some ds
      → SectionsKeep fds cs ds
  unfolding relo_sections
  relo_sections-SectionsKeep [] h = ground (arith, SectionsKeep-refl fds [])
  relo_sections-SectionsKeep (c ∷ cs) {ds} h =
      split (relo_section symbol_name names fds c.insns c.rel_data) refl
        (λ ds' f. relo_sections-SectionsKeep cs {ds = ds'} f)
    where
      split :
          (r : Relocated (List Insn))
          → relo_section symbol_name names fds c.insns c.rel_data ≡ r
          → ((ds' : List CodeSection)
              → relo_sections symbol_name names fds cs ≡ some ds'
              → SectionsKeep fds cs ds')
          → SectionsKeep fds (c ∷ cs) ds
      split (done js) e rest_keep = elim (Option-cases (relo_sections symbol_name names fds cs)) [
        | inl f ↦ ground (arith, e, f)
        | inr (rest, f) ↦
            ground (arith, e, f, relo_section-Keeps c.insns c.rel_data, rest_keep rest f)
      ]
      split (stopped js) e rest_keep =
          ground (arith, e, relo_section-Keeps c.insns c.rel_data, SectionsKeep-refl fds cs)
      split left_vector e rest_keep = ground (arith, e)
