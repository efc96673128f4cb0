-- ===== src/Guardrail/Tests.antt =====
-- The guardrail on sample configurations.
use platform_packages_module.Prelude.{
  ◌≡◌, ◌≢◌, ◌↔◌, ◌⊎◌, refl, [], ◌∷◌, none, some, true, false, All, codes,
}
use platform_packages_module.Config.{ProbeConfig, TaskConfig, UprobestatsConfig}
use platform_packages_module.LibBase.Sample.{base}
use platform_packages_module.Guardrail.{
  is_allowed, tasks_allowed, probes_allowed, matches_some, matches_prefix, get_full_method_name,
  allowed_method_prefixes,
}
use platform_packages_module.Guardrail.Laws.{IsPermittedProbe, is_allowed_iff}

abbrev pub probe : ProbeConfig
probe = record {
  bpf_name = some (codes "prog_GenericInstrumentation_uprobe_call_detail");
  file_paths = codes "/system/lib64/a.oat" ∷ [];
  method_signature = some (codes "void com.android.server.am.OomAdjuster$1.run(int)");
  fully_qualified_class_name = none;
  method_name = none;
  fully_qualified_parameters = [];
}

abbrev stray_probe : ProbeConfig
stray_probe = record probe {
  method_signature = some (codes "void com.android.server.am.OomAdjusterX.run(int)");
}

abbrev pub task : TaskConfig
task = record {
  probe_configs = probe ∷ [];
  bpf_maps = codes "map_GenericInstrumentation_call_detail_buf" ∷ [];
  target_process_name = some (codes "system_server");
  duration_seconds = none;
  statsd_logging_config = none;
}

abbrev pub config : UprobestatsConfig
config = record { tasks = task ∷ [] }

abbrev stray_config : UprobestatsConfig
stray_config = record { tasks = task ∷ record task { probe_configs = stray_probe ∷ [] } ∷ [] }

permitted_runs : is_allowed base config (codes "user") true ≡ true
unfolding is_allowed tasks_allowed probes_allowed matches_some matches_prefix get_full_method_name
    allowed_method_prefixes
permitted_runs = refl

-- A class whose name merely starts like an allowed one is refused on a user build.
stray_runs :
    (is_allowed base stray_config (codes "user") true ≡ false)
    × (is_allowed base stray_config (codes "userdebug") true ≡ true)
unfolding is_allowed tasks_allowed probes_allowed matches_some matches_prefix get_full_method_name
    allowed_method_prefixes
stray_runs = (refl, refl)

is_allowed_iff_example : (is_allowed base config (codes "user") true ≡ true) ↔ (
    (codes "user" ≢ codes "user")
    ⊎ All (λ t. All (IsPermittedProbe base true) t.probe_configs) config.tasks)
is_allowed_iff_example = is_allowed_iff base config (codes "user") true
