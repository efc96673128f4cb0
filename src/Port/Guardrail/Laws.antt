-- ===== src/Port/Guardrail/Laws.antt =====
-- The guardrail of the port against the daemon's.
use platform_packages_module.Prelude.{
  ◌≡◌, ◌↔◌, inl, inr, refl, sym, ap, ◌∙◌, List, [], ◌∷◌, ◌++◌, Bool, true, false, false≢true, arith,
  Bool-cases, All, Any, Text, codes, text_eq, none, some, Option,
}
use platform_packages_module.Config.{ProbeConfig, TaskConfig, UprobestatsConfig}
use platform_packages_module.LibBase.{LibBase}
use platform_packages_module.Guardrail.{
  matches_prefix, second, matches_some, probes_allowed, tasks_allowed,
}
use platform_packages_module.Guardrail.Laws.{IsUnder, matches_some→Any}
use platform_packages_module.Guardrail
use platform_packages_module.Port.{Strings, ok}
use platform_packages_module.Port.Guardrail.{
  nth_part, get_full_method_name, allows, some_allows, allowed_method_prefixes, all_probes,
  all_tasks, is_allowed,
}

-- The prefixes that only the port has.
abbrev pub added_prefixes : List Text
added_prefixes =
    codes
      "com.android.server.pm.PackageManagerService$IPackageManagerImpl.setComponentEnabledSetting"
    ∷ codes "com.android.server.am.ActiveServices.bindServiceLocked"
    ∷ []

Bool-ext : (a b : Bool) → ((a ≡ true) ↔ (b ≡ true)) → a ≡ b
Bool-ext a b h = elim (Bool-cases a) [
  | inl on ↦ on ∙ sym (h.0 on)
  | inr off ↦ elim (Bool-cases b) [
    | inl on ↦ absurd (false≢true (sym off ∙ h.1 on))
    | inr off_too ↦ off ∙ sym off_too
  ]
]

module _ (strings : Strings) (base : LibBase) where
  starts_with-agrees : (s prefix : Text) → strings.starts_with s prefix ≡ base.starts_with s prefix
  starts_with-agrees s prefix =
      Bool-ext (strings.starts_with s prefix) (base.starts_with s prefix) (
        λ h. (base.starts_with_iff s prefix).1 ((strings.starts_with_iff s prefix).0 h),
        λ h. (strings.starts_with_iff s prefix).1 ((base.starts_with_iff s prefix).0 h),
      )

  allows-agrees :
      (name prefix : Text) → allows strings name prefix ≡ matches_prefix base name prefix
  unfolding allows matches_prefix
  allows-agrees name prefix = ground (
    arith,
    starts_with-agrees name (prefix ++ codes "("),
    starts_with-agrees name (prefix ++ codes "."),
    starts_with-agrees name (prefix ++ codes "$"),
  )

  some_allows-agrees :
      (name : Text) (ps : List Text) → some_allows strings name ps ≡ matches_some base name ps
  unfolding some_allows matches_some
  some_allows-agrees name [] = refl
  some_allows-agrees name (p ∷ ps) =
      ground (arith, allows-agrees name p, some_allows-agrees name ps)

  matches_some-append :
      (name : Text) (ps qs : List Text)
      → matches_some base name qs ≡ false
      → matches_some base name (ps ++ qs) ≡ matches_some base name ps
  unfolding matches_some
  matches_some-append name [] qs h = h
  matches_some-append name (p ∷ ps) qs h = ground (arith, matches_some-append name ps qs h)

  -- A name that the added prefixes do not concern.
  abbrev pub IsOrdinary : Text → Type 0
  IsOrdinary name = ¬ Any (λ p. IsUnder p name) added_prefixes

  prefixes-agree :
      (name : Text)
      → IsOrdinary name
      → some_allows strings name allowed_method_prefixes
        ≡ matches_some base name Guardrail.allowed_method_prefixes
  unfolding allowed_method_prefixes Guardrail.allowed_method_prefixes
  prefixes-agree name ordinary =
      some_allows-agrees name allowed_method_prefixes
      ∙ matches_some-append name Guardrail.allowed_method_prefixes added_prefixes
          (elim (Bool-cases (matches_some base name added_prefixes)) [
            | inl hit ↦ absurd (ordinary (matches_some→Any base name added_prefixes hit))
            | inr miss ↦ miss
          ])

  module _ (same_split : (s : Text) → strings.split s (codes " ") ≡ base.split s (codes " ")) where
    nth_part-second :
        (parts : List Text) (name : Text) → nth_part parts ≡ ok name → second base parts ≡ name
    unfolding nth_part second
    nth_part-second [] name h = cc
    nth_part-second (a ∷ []) name h = cc
    nth_part-second (a ∷ b ∷ rest) name h = cc

    -- The same for a probe that is given field by field.
    full_name-agrees :
        (api : Bool) (bpf_name class method signature : Option Text) (paths parameters : List Text)
        (name : Text)
        → let p : ProbeConfig = record {
          bpf_name = bpf_name;
          file_paths = paths;
          method_signature = signature;
          fully_qualified_class_name = class;
          method_name = method;
          fully_qualified_parameters = parameters;
        } in
          get_full_method_name strings p api ≡ ok name
          → Guardrail.get_full_method_name base p api ≡ name
    unfolding get_full_method_name Guardrail.get_full_method_name
    full_name-agrees true b none m s ps qs name h = cc
    full_name-agrees true b (some c) none s ps qs name h = cc
    full_name-agrees true b (some c) (some m) s ps qs name h = cc
    full_name-agrees false b c m none ps qs name h = cc
    full_name-agrees false b c m (some s) ps qs name h =
        nth_part-second (base.split s (codes " ")) name (ap nth_part (sym (same_split s)) ∙ h)

    get_full_method_name-agrees :
        (p : ProbeConfig) (api : Bool) (name : Text)
        → get_full_method_name strings p api ≡ ok name
        → Guardrail.get_full_method_name base p api ≡ name
    get_full_method_name-agrees p api name h =
        full_name-agrees api p.bpf_name p.fully_qualified_class_name p.method_name
          p.method_signature p.file_paths p.fully_qualified_parameters name h

    -- The port can read the name of the method, and the added prefixes do not concern it.
    abbrev pub IsOrdinaryProbe : Bool → ProbeConfig → Type 0
    IsOrdinaryProbe api p =
        (name : Text) × (get_full_method_name strings p api ≡ ok name) × IsOrdinary name

    all_probes-agrees :
        (api : Bool) (ps : List ProbeConfig)
        → All (IsOrdinaryProbe api) ps
        → all_probes strings api ps ≡ ok (probes_allowed base api ps)
    unfolding all_probes probes_allowed
    all_probes-agrees api [] a = refl
    all_probes-agrees api (p ∷ ps) ((name, e, ordinary), a) = ground (
      arith,
      e,
      get_full_method_name-agrees p api name e,
      prefixes-agree name ordinary,
      all_probes-agrees api ps a,
    )

    all_tasks-agrees :
        (api : Bool) (ts : List TaskConfig)
        → All (λ t. All (IsOrdinaryProbe api) t.probe_configs) ts
        → all_tasks strings api ts ≡ ok (tasks_allowed base api ts)
    unfolding all_tasks tasks_allowed
    all_tasks-agrees api [] a = refl
    all_tasks-agrees api (t ∷ ts) (a, rest) =
        ground (arith, all_probes-agrees api t.probe_configs a, all_tasks-agrees api ts rest)

    -- Where the port can read the full name of each probe's method, and no such name is under one of
    -- the two prefixes that only the port has, the guardrail of the port ends without an error and
    -- gives the daemon's answer, if both separate a signature at its spaces into the same parts.
    pub is_allowed-agrees :
        (config : UprobestatsConfig) (build_type : Text) (api : Bool)
        → All (λ t. All (IsOrdinaryProbe api) t.probe_configs) config.tasks
        → is_allowed strings config (text_eq build_type (codes "user")) api
          ≡ ok (Guardrail.is_allowed base config build_type api)
    unfolding is_allowed Guardrail.is_allowed
    is_allowed-agrees config build_type api a = ground (arith, all_tasks-agrees api config.tasks a)
