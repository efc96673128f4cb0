-- ===== src/Guardrail/Laws.antt =====
-- What the guardrail lets through, stated without its tests.
use platform_packages_module.Prelude.{
  ℕ, ◌≡◌, ◌≢◌, ◌↔◌, ◌⊎◌, inl, inr, refl, sym, ◌∙◌, List, [], ◌∷◌, ◌++◌, append_assoc, Bool, true,
  false≢true, arith, Bool-cases, All, Any, Text, codes, text_eq, text_eq_iff,
}
use platform_packages_module.Config.{ProbeConfig, TaskConfig, UprobestatsConfig}
use platform_packages_module.LibBase.{LibBase}
use platform_packages_module.Guardrail.{
  allowed_method_prefixes, get_full_method_name, matches_prefix, matches_some, probes_allowed,
  tasks_allowed, is_allowed,
}

-- The name is an allowed one, or one of its members, nested classes or overloads.
pub data IsUnder (allowed name : Text) : Type 0 where
  itself : name ≡ allowed → IsUnder allowed name
  member : (rest : Text) → name ≡ allowed ++ (b'.' ∷ rest) → IsUnder allowed name
  nested : (rest : Text) → name ≡ allowed ++ (b'$' ∷ rest) → IsUnder allowed name
  overload : (rest : Text) → name ≡ allowed ++ (b'(' ∷ rest) → IsUnder allowed name

abbrev pub IsPermitted : Text → Type 0
IsPermitted name = Any (λ p. IsUnder p name) allowed_method_prefixes

module _ (base : LibBase) where
  open base use {starts_with, starts_with_iff}

  -- A prefix that ends in a separator.
  starts→extends :
      (name allowed : Text) (c : ℕ)
      → starts_with name (allowed ++ (c ∷ [])) ≡ true
      → (rest : Text) × (name ≡ allowed ++ (c ∷ rest))
  starts→extends name allowed c h =
      let (rest, e) = (starts_with_iff name (allowed ++ (c ∷ []))).0 h in
      (rest, e ∙ append_assoc allowed (c ∷ []) rest)

  extends→starts :
      (name allowed : Text) (c : ℕ) (rest : Text)
      → name ≡ allowed ++ (c ∷ rest)
      → starts_with name (allowed ++ (c ∷ [])) ≡ true
  extends→starts name allowed c rest e =
      (starts_with_iff name (allowed ++ (c ∷ []))).1
        (rest, e ∙ sym (append_assoc allowed (c ∷ []) rest))

  matches_prefix→IsUnder :
      (name allowed : Text) → matches_prefix base name allowed ≡ true → IsUnder allowed name
  unfolding matches_prefix
  matches_prefix→IsUnder name allowed h =
      elim (Bool-cases (starts_with name (allowed ++ codes "."))) [
        | inl a ↦ let (rest, e) = starts→extends name allowed b'.' a in member rest e
        | inr a ↦ elim (Bool-cases (starts_with name (allowed ++ codes "$"))) [
          | inl b ↦ let (rest, e) = starts→extends name allowed b'$' b in nested rest e
          | inr b ↦ elim (Bool-cases (starts_with name (allowed ++ codes "("))) [
            | inl c ↦ let (rest, e) = starts→extends name allowed b'(' c in overload rest e
            | inr c ↦ itself ((text_eq_iff name allowed).0 (rw (a, b, c) at h))
          ]
        ]
      ]

  IsUnder→matches_prefix :
      (name allowed : Text) → IsUnder allowed name → matches_prefix base name allowed ≡ true
  unfolding matches_prefix
  IsUnder→matches_prefix name allowed (itself e) = ground (arith, (text_eq_iff name allowed).1 e)
  IsUnder→matches_prefix name allowed (member rest e) =
      ground (arith, extends→starts name allowed b'.' rest e)
  IsUnder→matches_prefix name allowed (nested rest e) =
      ground (arith, extends→starts name allowed b'$' rest e)
  IsUnder→matches_prefix name allowed (overload rest e) =
      ground (arith, extends→starts name allowed b'(' rest e)

  pub matches_some→Any :
      (name : Text) (ps : List Text)
      → matches_some base name ps ≡ true
      → Any (λ p. IsUnder p name) ps
  unfolding matches_some
  matches_some→Any name [] h = cc
  matches_some→Any name (p ∷ ps) h = elim (Bool-cases (matches_prefix base name p)) [
    | inl hit ↦ inl (matches_prefix→IsUnder name p hit)
    | inr miss ↦ inr (matches_some→Any name ps (rw miss at h))
  ]

  pub Any→matches_some :
      (name : Text) (ps : List Text)
      → Any (λ p. IsUnder p name) ps
      → matches_some base name ps ≡ true
  unfolding matches_some
  Any→matches_some name [] h = absurd h
  Any→matches_some name (p ∷ ps) (inl u) = ground (arith, IsUnder→matches_prefix name p u)
  Any→matches_some name (p ∷ ps) (inr u) = ground (arith, Any→matches_some name ps u)

  -- A probe is permitted by the full name of its method.
  abbrev pub IsPermittedProbe : Bool → ProbeConfig → Type 0
  IsPermittedProbe api p = IsPermitted (get_full_method_name base p api)

  probes_allowed_iff :
      (api : Bool) (ps : List ProbeConfig)
      → (probes_allowed base api ps ≡ true) ↔ All (IsPermittedProbe api) ps
  unfolding probes_allowed
  probes_allowed_iff api [] = (λ h. tt, λ h. refl)
  probes_allowed_iff api (p ∷ ps) =
      let name = get_full_method_name base p api in
      elim (Bool-cases (matches_some base name allowed_method_prefixes)) [
        | inl hit ↦ (
          λ h. (
            matches_some→Any name allowed_method_prefixes hit,
            (probes_allowed_iff api ps).0 (rw hit at h),
          ),
          λ h. rw hit ((probes_allowed_iff api ps).1 h.1),
        )
        | inr miss ↦ (
          λ h. absurd (false≢true (rw miss at h)),
          λ h. absurd (false≢true (sym miss ∙ Any→matches_some name allowed_method_prefixes h.0)),
        )
      ]

  tasks_allowed_iff :
      (api : Bool) (ts : List TaskConfig)
      → (tasks_allowed base api ts ≡ true)
        ↔ All (λ t. All (IsPermittedProbe api) t.probe_configs) ts
  unfolding tasks_allowed
  tasks_allowed_iff api [] = (λ h. tt, λ h. refl)
  tasks_allowed_iff api (t ∷ ts) = elim (Bool-cases (probes_allowed base api t.probe_configs)) [
    | inl fine ↦ (
      λ h. (
        (probes_allowed_iff api t.probe_configs).0 fine,
        (tasks_allowed_iff api ts).0 (rw fine at h),
      ),
      λ h. rw fine ((tasks_allowed_iff api ts).1 h.1),
    )
    | inr bad ↦ (
      λ h. absurd (false≢true (rw bad at h)),
      λ h. absurd (false≢true (sym bad ∙ (probes_allowed_iff api t.probe_configs).1 h.0)),
    )
  ]

  -- The guardrail lets a configuration through exactly when the build is not a user build, or each
  -- probe of each task has a method whose full name is an allowed one, or goes on from it with a
  -- dot, a dollar sign or a parenthesis.
  pub is_allowed_iff :
      (config : UprobestatsConfig) (build_type : Text) (api : Bool)
      → (is_allowed base config build_type api ≡ true) ↔ (
          (build_type ≢ codes "user")
          ⊎ All (λ t. All (IsPermittedProbe api) t.probe_configs) config.tasks)
  unfolding is_allowed
  is_allowed_iff config build_type api = elim (Bool-cases (text_eq build_type (codes "user"))) [
    | inl user ↦ (
      λ h. inr ((tasks_allowed_iff api config.tasks).0 (rw user at h)),
      λ h. rw user (elim h [
        | inl other ↦ absurd (other ((text_eq_iff build_type (codes "user")).0 user))
        | inr fine ↦ (tasks_allowed_iff api config.tasks).1 fine
      ]),
    )
    | inr other ↦ (
      λ h. inl (λ e. false≢true (sym other ∙ (text_eq_iff build_type (codes "user")).1 e)),
      λ h. rw other,
    )
  ]
