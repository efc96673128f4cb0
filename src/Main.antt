-- ===== src/Main.antt =====
-- UprobeStats.cpp, `main`: the guards, the placing of the probes and the polling threads.
pub mod Laws
mod Tests
use platform_packages_module.Prelude.{
  ℕ, List, [], ◌∷◌, ◌++◌, Option, none, some, Bool, true, false, not, ◌&&◌, if◌then◌else◌, Text,
  codes, text_eq, ℤ, is_zero,
}
use platform_packages_module.Config.{TaskConfig, UprobestatsConfig, text_of}
use platform_packages_module.LibBase.{LibBase}
use platform_packages_module.Guardrail.{is_allowed}
use platform_packages_module.Resolver.{
  ResolvedProbe, ResolvedTask, MethodOffsets, resolve_single_task, resolve_probes,
}
use platform_packages_module.Bpf.{PerfKernel, bpf_perf_event_open}
use platform_packages_module.Progs.Fns.Laws.{c_string}

-- The device that `main` runs on: its flags, the configuration if it can be read and parsed, the
-- build type, and what the other components answer.
pub record Device : Type 0 where
  pub enable_uprobestats : Bool
  pub executable_method_file_offsets : Bool
  pub support_idle_allowlist : Bool
  pub monitor_disruptive_apps : Bool
  pub config : Option UprobestatsConfig
  pub build_type : Text
  pub get_pid : Text → ℤ
  pub offsets : Text → Text → Text → List Text → Option MethodOffsets
  pub oat : Text → Text → ℤ
  pub perf : PerfKernel

-- `prefixBpf`: the path ends at the first NUL of the name.
unfoldable pub prefix_bpf : Text → Text
prefix_bpf value = codes "/sys/fs/bpf/uprobestats/" ++ c_string value

-- The probe is passed over: one of the two whose file name stands for a disabled program.
unfoldable pub skips_probe : Device → ResolvedProbe → Bool
skips_probe d p =
    if text_eq p.filename (codes "prog_MalwareSignal_uprobe_add_bound_client_uid")
      && not d.monitor_disruptive_apps
    then true
    else text_eq p.filename (codes "prog_MalwareSignal_uprobe_set_component_enabled_setting")
      && not d.monitor_disruptive_apps

-- The call of `bpfPerfEventOpen` for a probe succeeds. (What is open already has no influence on it.)
unfoldable pub opens : Device → ℤ → ResolvedProbe → Bool
opens d pid p =
    is_zero
      (bpf_perf_event_open d.perf [] (c_string p.filename) p.offset pid
        (c_string (prefix_bpf (text_of p.probe_config.bpf_name)))).ret

-- The loop over the probes: whether it came to its end, and the probes that it tried to place.
unfoldable pub open_probes : Device → ℤ → List ResolvedProbe → Bool × List ResolvedProbe
open_probes d pid [] = (true, [])
open_probes d pid (p ∷ ps) =
    let (all_open, tried) = open_probes d pid ps in
    if skips_probe d p
    then (all_open, tried)
    else if not (opens d pid p)
    then (false, p ∷ [])
    else (all_open, p ∷ tried)

-- The loop over the maps: the paths that a thread is started for.
unfoldable pub thread_paths : Device → List Text → List Text
thread_paths d [] = []
thread_paths d (m ∷ ms) =
    if text_eq m (codes "map_MalwareSignal_output_buf") && not d.monitor_disruptive_apps
    then thread_paths d ms
    else prefix_bpf m ∷ thread_paths d ms

-- What `main` does: its exit code, the probes that it tried to place and the paths that it polled.
pub record Exit : Type 0 where
  pub code : ℕ
  pub tried : List ResolvedProbe
  pub polled : List Text

abbrev pub refused : Exit
refused = record { code = 1; tried = []; polled = [] }

-- The part from the placing of the probes on.
unfoldable pub run_task : Device → ResolvedTask → List ResolvedProbe → Exit
run_task d task probes =
    let (all_open, tried) = open_probes d task.pid probes in
    if all_open
    then record { code = 0; tried = tried; polled = thread_paths d task.task_config.bpf_maps }
    else record { code = 1; tried = tried; polled = [] }

-- The part from the guardrail on.
unfoldable pub run_config : LibBase → Device → UprobestatsConfig → Exit
run_config base d config =
    if not (is_allowed base config d.build_type d.executable_method_file_offsets)
    then refused
    else elim (resolve_single_task d.get_pid config) [
      | none ↦ refused
      | some task ↦
          elim (resolve_probes d.offsets d.oat d.executable_method_file_offsets task.task_config) [
            | none ↦ refused
            | some probes ↦ run_task d task probes
          ]
    ]

unfoldable pub main : LibBase → Device → Exit
main base d =
    if not d.enable_uprobestats
    then refused
    else elim d.config [ none ↦ refused | some config ↦ run_config base d config ]
