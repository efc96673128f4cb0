-- ===== src/Port/Guardrail/Tests.antt =====
-- The guardrails on sample configurations.
use platform_packages_module.Prelude.{
  ◌≡◌, refl, [], ◌∷◌, none, some, true, false, false≢true, codes, has_prefix, has_prefix_iff,
  text_eq,
}
use platform_packages_module.Config.{ProbeConfig, UprobestatsConfig}
use platform_packages_module.LibBase.Sample.{base}
use platform_packages_module.Guardrail
use platform_packages_module.Guardrail.Tests.{probe, task, config}
use platform_packages_module.Port.{Strings, ok, err}
use platform_packages_module.Port.Guardrail.{
  method_signature_empty, nth_part, get_full_method_name, allows, some_allows,
  allowed_method_prefixes, all_probes, all_tasks, is_allowed,
}
use platform_packages_module.Port.Guardrail.Laws.{
  IsOrdinaryProbe, added_prefixes, is_allowed-agrees,
}
use platform_packages_module.Guardrail.{matches_some, matches_prefix}
use platform_packages_module.Guardrail.Laws.{Any→matches_some}

abbrev strings : Strings
strings = record { split = base.split; starts_with = has_prefix; starts_with_iff = has_prefix_iff }

abbrev bind_service : ProbeConfig
bind_service = record probe {
  method_signature = some (codes "int com.android.server.am.ActiveServices.bindServiceLocked(int)");
}

abbrev wider : UprobestatsConfig
wider = record { tasks = record task { probe_configs = bind_service ∷ [] } ∷ [] }

abbrev nameless : UprobestatsConfig
nameless = record {
  tasks = record task { probe_configs = record probe { method_signature = none } ∷ [] } ∷ [];
}

-- An added prefix, and a probe without a signature.
wider_runs : is_allowed strings wider true false ≡ ok true
unfolding is_allowed all_tasks all_probes some_allows allows get_full_method_name nth_part
    allowed_method_prefixes
wider_runs = refl

nameless_runs : is_allowed strings nameless true false ≡ err method_signature_empty
unfolding is_allowed all_tasks all_probes some_allows allows get_full_method_name nth_part
    allowed_method_prefixes
nameless_runs = refl

-- The sample configuration has an ordinary probe.
probe-IsOrdinary : IsOrdinaryProbe strings base (λ s. refl) false probe
unfolding get_full_method_name nth_part matches_some matches_prefix
probe-IsOrdinary = (
  codes "com.android.server.am.OomAdjuster$1.run(int)",
  refl,
  λ u. false≢true (
      Any→matches_some base (codes "com.android.server.am.OomAdjuster$1.run(int)") added_prefixes
        u),
)

is_allowed-agrees_example :
    is_allowed strings config (text_eq (codes "user") (codes "user")) false
    ≡ ok (Guardrail.is_allowed base config (codes "user") false)
is_allowed-agrees_example =
    is_allowed-agrees strings base (λ s. refl) config (codes "user") false
      ((probe-IsOrdinary, tt), tt)
