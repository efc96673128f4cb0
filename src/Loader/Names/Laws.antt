-- ===== src/Loader/Names/Laws.antt =====
-- Names of objects and types of programs: what `pathToObjName` and `IsAllowed` amount to.
use platform_packages_module.Prelude.{
  ℕ, List, [], ◌∷◌, ◌++◌, ◌≡◌, none, some, true, false, ◌==◌, Text, refl, any, Any, append_assoc,
  codes, arith, ◌↔◌, ◌≢◌, ◌⊎◌, inl, inr,
}
use platform_packages_module.LibBase.{LibBase}
use platform_packages_module.Loader.Names.{
  before_last, strip_from, last, path_to_obj_name, allowed_in, is_allowed_type, prog_type_unspec,
}

-- The byte does not occur.
abbrev pub Lacks : ℕ → Text → Type 0
Lacks c s = any (λ x. x == c) s ≡ false

before_last-Lacks : (c : ℕ) (s : Text) → Lacks c s → before_last c s ≡ none
unfolding before_last
before_last-Lacks c [] h = refl
before_last-Lacks c (x ∷ s) h = grind (arith, before_last-Lacks c s)

-- The last occurrence of a byte splits a text there.
before_last-append : (c : ℕ) (t s : Text) → Lacks c s → before_last c (t ++ (c ∷ s)) ≡ some t
unfolding before_last
before_last-append c [] s h = rw (before_last-Lacks c s h) (ground arith)
before_last-append c (x ∷ t) s h = rw (before_last-append c t s h) refl

strip_from-append : (c : ℕ) (t s : Text) → Lacks c s → strip_from c (t ++ (c ∷ s)) ≡ t
unfolding strip_from
strip_from-append c t s h = rw (before_last-append c t s h, strip_from) refl

last-append : (before : List Text) (x : Text) → last (before ++ (x ∷ [])) ≡ x
last-append [] x = refl
last-append (y ∷ []) x = refl
last-append (y ∷ z ∷ before) x = last-append (z ∷ before) x

-- An object file `<name>@<version>.<suffix>`, in any directory, has the object name `<name>`, if the
-- suffix has no period and the version no at sign.
pub path_to_obj_name_lem :
    (base : LibBase) (path : Text) (before : List Text) (name version suffix : Text)
    → base.split path (codes "/") ≡ before ++ ((name ++ (64 ∷ (version ++ (46 ∷ suffix)))) ∷ [])
    → Lacks 46 suffix
    → Lacks 64 version
    → path_to_obj_name base path ≡ name
unfolding path_to_obj_name
path_to_obj_name_lem base path before name version suffix splits no_period no_at =
    rw
      (
        splits,
        last-append before (name ++ (64 ∷ (version ++ (46 ∷ suffix)))),
        ← append_assoc name (64 ∷ version) (46 ∷ suffix),
        strip_from-append 46 (name ++ (64 ∷ version)) suffix no_period,
        strip_from-append 64 name version no_at,
      )
      refl

-- The type is the one of the entry, or the entry stands for the type of fuse programs.
abbrev pub Admits : ℕ → ℕ → ℕ → Type 0
Admits fuse type a =
    ((a ≡ prog_type_unspec) × (type ≡ fuse)) ⊎ ((a ≢ prog_type_unspec) × (type ≡ a))

-- A program type is let through exactly when the list has an entry for it, where the entry
-- BPF_PROG_TYPE_UNSPEC stands for the type of fuse programs.
pub is_allowed_type_iff :
    (fuse type : ℕ) (allowed : List ℕ)
    → (is_allowed_type fuse type (some allowed) ≡ true) ↔ Any (Admits fuse type) allowed
unfolding is_allowed_type allowed_in
is_allowed_type_iff fuse type allowed = (there allowed, back allowed)
  where
    there : (l : List ℕ) → allowed_in fuse type l ≡ true → Any (Admits fuse type) l
    there [] h = cc
    there (a ∷ l) h = ground (arith, there l)

    back : (l : List ℕ) → Any (Admits fuse type) l → allowed_in fuse type l ≡ true
    back [] h = absurd h
    back (a ∷ l) (inl h) = ground arith
    back (a ∷ l) (inr h) = ground (arith, back l h)
