-- ===== src/Prelude/Prefixes.antt =====
-- `has_prefix` tests what it says.
use mathlib.Core.Path.{◌≡◌, refl}
use mathlib.Core.Logic.{◌↔◌}
use mathlib.Core.Bool.{true}
use mathlib.Core.List.{[], ◌∷◌, ◌++◌}
use native.Mathlib.Omega.{arith}
use platform_packages_module.Prelude.Words.{Text, has_prefix}

has_prefix-append : (p rest : Text) → has_prefix (p ++ rest) p ≡ true
has_prefix-append [] rest = refl
has_prefix-append (c ∷ p) rest = ground (arith, has_prefix-append p rest)

append-has_prefix : (s p : Text) → has_prefix s p ≡ true → (rest : Text) × (s ≡ p ++ rest)
append-has_prefix s [] h = (s, refl)
append-has_prefix [] (d ∷ p) h = absurd (ground arith)
append-has_prefix (c ∷ s) (d ∷ p) h =
    let (rest, e) = append-has_prefix s p (ground arith) in
    let same : c ≡ d = ground arith in (rest, ground arith)

pub has_prefix_iff : (s p : Text) → (has_prefix s p ≡ true) ↔ ((rest : Text) × (s ≡ p ++ rest))
has_prefix_iff s p = (append-has_prefix s p, λ (rest, e). rw e (has_prefix-append p rest))
