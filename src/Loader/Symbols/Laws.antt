-- ===== src/Loader/Symbols/Laws.antt =====
-- The symbols after sorting.
use platform_packages_module.Prelude.{
  ℕ, ◌+◌, ◌≤◌, List, [], ◌∷◌, ◌≡◌, Bool, if◌then◌else◌, arith, refl,
}
use platform_packages_module.Loader.Symbols.{Sym, insert_sym, sort_syms}

-- No symbol has a lower value than an earlier one.
abbrev pub AtLeast : ℕ → List Sym → Type 0
AtLeast v [] = Unit
AtLeast v (x ∷ xs) = (v ≤ x.st_value) × AtLeast v xs

abbrev pub IsOrdered : List Sym → Type 0
IsOrdered [] = Unit
IsOrdered (x ∷ xs) = AtLeast x.st_value xs × IsOrdered xs

-- How many symbols pass a test.
abbrev pub count : (Sym → Bool) → List Sym → ℕ
count p [] = 0
count p (x ∷ xs) = (if p x then 1 else 0) + count p xs

AtLeast-le : (u v : ℕ) (xs : List Sym) → u ≤ v → AtLeast v xs → AtLeast u xs
AtLeast-le u v [] h a = tt
AtLeast-le u v (x ∷ xs) h (le, a) = (omega (arith, h, le), AtLeast-le u v xs h a)

insert_sym-AtLeast :
    (v : ℕ) (x : Sym) (xs : List Sym) → v ≤ x.st_value → AtLeast v xs → AtLeast v (insert_sym x xs)
unfolding insert_sym
insert_sym-AtLeast v x [] h a = (h, tt)
insert_sym-AtLeast v x (y ∷ ys) h (b, a) = ground (arith, insert_sym-AtLeast v x ys h a)

insert_sym-IsOrdered : (x : Sym) (xs : List Sym) → IsOrdered xs → IsOrdered (insert_sym x xs)
unfolding insert_sym
insert_sym-IsOrdered x [] o = (tt, tt)
insert_sym-IsOrdered x (y ∷ ys) (a, o) = ground (
  arith,
  insert_sym-IsOrdered x ys o,
  insert_sym-AtLeast y.st_value x ys,
  AtLeast-le x.st_value y.st_value ys,
)

count-insert_sym :
    (p : Sym → Bool) (x : Sym) (xs : List Sym)
    → count p (insert_sym x xs) ≡ (if p x then 1 else 0) + count p xs
unfolding insert_sym
count-insert_sym p x [] = refl
count-insert_sym p x (y ∷ ys) = ground (arith, count-insert_sym p x ys)

sort_syms-IsOrdered : (xs : List Sym) → IsOrdered (sort_syms xs)
unfolding sort_syms
sort_syms-IsOrdered [] = tt
sort_syms-IsOrdered (x ∷ xs) = insert_sym-IsOrdered x (sort_syms xs) (sort_syms-IsOrdered xs)

count-sort_syms : (p : Sym → Bool) (xs : List Sym) → count p (sort_syms xs) ≡ count p xs
unfolding sort_syms
count-sort_syms p [] = refl
count-sort_syms p (x ∷ xs) =
    ground (arith, count-insert_sym p x (sort_syms xs), count-sort_syms p xs)
