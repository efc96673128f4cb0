-- ===== src/Main/Tests.antt =====
-- `main` on a sample device.
use platform_packages_module.Prelude.{refl, [], ◌∷◌, some, true, false, All, codes}
use platform_packages_module.LibBase.Sample.{base}
use platform_packages_module.Guardrail.Tests.{probe}
use platform_packages_module.Resolver.Tests.{timed_task, pid_of, oat, offsets}
use platform_packages_module.Bpf.Tests.{kernel}
use platform_packages_module.Main.{Device, main}
use platform_packages_module.Main.Laws.{Permitted, main-Permitted}

abbrev device : Device
device = record {
  enable_uprobestats = true;
  executable_method_file_offsets = false;
  support_idle_allowlist = true;
  monitor_disruptive_apps = false;
  config = some (record {
    tasks =
        record timed_task {
          probe_configs = record probe { file_paths = codes "/a.oat" ∷ codes "/b.oat" ∷ [] } ∷ [];
        }
        ∷ [];
  });
  build_type = codes "user";
  get_pid = pid_of;
  offsets = offsets;
  oat = oat;
  perf = kernel;
}

main-Permitted_example : All (Permitted base device refl) (main base device).tried
main-Permitted_example = main-Permitted base device refl
