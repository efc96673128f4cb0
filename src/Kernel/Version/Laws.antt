-- ===== src/Kernel/Version/Laws.antt =====
-- The order of kernel versions, and the versions of one minor number.
use platform_packages_module.Prelude.{
  ℕ, ◌+◌, ◌<◌, ◌≤◌, ◌*◌, ◌^◌, ◌≡◌, ◌↔◌, ◌⊎◌, inl, inr, true, List, [], ◌∷◌, arith, refl, Any, Bool,
  false, ◌||◌,
}
use platform_packages_module.Kernel.Version.{
  kver, is_at_least_kernel_version, is_kernel_version, is_lts_kernel,
}

-- A version's numbers fit into their parts of a word.
abbrev pub IsVersion : ℕ → ℕ → ℕ → Type 0
IsVersion a b c = (a < 2 ^ 8) × (b < 2 ^ 8) × (c < 2 ^ 16)

kver-exact : (a b c : ℕ) → IsVersion a b c → kver a b c ≡ a * 2 ^ 24 + b * 2 ^ 16 + c
unfolding kver
kver-exact a b c (p, q, r) = omega (arith, p, q, r)

-- A version is at least another in the order by major number, minor number and sublevel, if all
-- fit: 8 bits, 8 bits and 16 bits.
is_at_least_kernel_version_iff :
    (a b c major minor sub : ℕ)
    → IsVersion a b c
    → IsVersion major minor sub
    → (is_at_least_kernel_version (kver a b c) major minor sub ≡ true)
      ↔ ((major < a) ⊎ ((major ≡ a) × ((minor < b) ⊎ ((minor ≡ b) × (sub ≤ c)))))
unfolding is_at_least_kernel_version
is_at_least_kernel_version_iff a b c major minor sub v w =
    ground (arith, kver-exact a b c v, kver-exact major minor sub w)

is_kernel_version-exact :
    (a b c major minor : ℕ)
    → IsVersion a b c
    → major < 2 ^ 8
    → minor + 1 < 2 ^ 8
    → (is_kernel_version (kver a b c) major minor ≡ true) ↔ ((a ≡ major) × (b ≡ minor))
unfolding is_kernel_version is_at_least_kernel_version
is_kernel_version-exact a b c major minor v p q = ground (
  arith,
  kver-exact a b c v,
  kver-exact major minor 0 (p, omega (arith, q), omega arith),
  kver-exact major (minor + 1) 0 (p, q, omega arith),
)

or_iff : {P Q : Type 0} (x y : Bool) → (x ≡ true) ↔ P → (y ≡ true) ↔ Q → ((x || y) ≡ true) ↔ (P ⊎ Q)
or_iff true y (p, p') (q, q') = (λ e. inl (p refl), λ h. refl)
or_iff false y (p, p') (q, q') = (λ e. inr (q e), λ h. elim h [ inl x ↦ cc (p' x) | inr x ↦ q' x ])

or_last : {P Q : Type 0} → Q ↔ P → Q ↔ (P ⊎ ⊥)
or_last (f, g) = (λ q. inl (f q), λ h. elim h [ inl p ↦ g p | inr x ↦ absurd x ])

-- The long-term kernels that the code lists.
abbrev pub lts_versions : List (ℕ × ℕ)
lts_versions =
    (4, 4)
    ∷ (4, 9)
    ∷ (4, 14)
    ∷ (4, 19)
    ∷ (5, 4)
    ∷ (5, 10)
    ∷ (5, 15)
    ∷ (6, 1)
    ∷ (6, 6)
    ∷ (6, 12)
    ∷ []

-- A kernel counts as a long-term one exactly if its major and minor numbers are one of ten pairs,
-- whatever its sublevel, if all fit: 8 bits, 8 bits and 16 bits.
pub is_lts_kernel_iff :
    (a b c : ℕ)
    → IsVersion a b c
    → (is_lts_kernel (kver a b c) ≡ true) ↔ Any (λ v. (a ≡ v.0) × (b ≡ v.1)) lts_versions
unfolding is_lts_kernel
is_lts_kernel_iff a b c v =
    let k = kver a b c in
    let is = is_kernel_version k in
    or_iff (is 4 4) _ (is_kernel_version-exact a b c 4 4 v (omega arith) (omega arith)) (
      or_iff (is 4 9) _ (is_kernel_version-exact a b c 4 9 v (omega arith) (omega arith)) (
        or_iff (is 4 14) _ (is_kernel_version-exact a b c 4 14 v (omega arith) (omega arith)) (
          or_iff (is 4 19) _ (is_kernel_version-exact a b c 4 19 v (omega arith) (omega arith)) (
            or_iff (is 5 4) _ (is_kernel_version-exact a b c 5 4 v (omega arith) (omega arith)) (
              or_iff (is 5 10) _ (is_kernel_version-exact a b c 5 10 v (omega arith) (omega arith))
                (or_iff (is 5 15) _
                  (is_kernel_version-exact a b c 5 15 v (omega arith) (omega arith))
                  (or_iff (is 6 1) _
                    (is_kernel_version-exact a b c 6 1 v (omega arith) (omega arith))
                    (or_iff (is 6 6) _
                      (is_kernel_version-exact a b c 6 6 v (omega arith) (omega arith))
                      (or_last
                        (is_kernel_version-exact a b c 6 12 v (omega arith) (omega arith)))))))))))
