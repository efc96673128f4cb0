-- ===== src/Instrumentation/Tests.antt =====
-- The theorem on the library's objects at a concrete input.
use platform_packages_module.Prelude.{ℕ, ◌≡◌, List, [], ◌∷◌, some, true, refl, codes, pos, ap}
use platform_packages_module.Instrumentation.{Manager, get_executable_method_file_offsets}
use platform_packages_module.Instrumentation.Laws.{
  Living, IsManager, get_executable_method_file_offsets-living,
}

abbrev rest_of : List ℕ → List ℕ
rest_of [] = []
rest_of (x ∷ xs) = xs

-- A library whose state is its living objects.
abbrev manager : Manager
manager = record {
  World = Living;
  dlopen = λ w. (w, true);
  dlsym = λ w name. true;
  target_process_create = λ w uid pid name. (record w { processes = 16 ∷ w.processes }, 16);
  target_process_destroy = λ w process. record w { processes = rest_of w.processes };
  method_descriptor_create = λ w fqcn name parameters. (record w { methods = 32 ∷ w.methods }, 32);
  method_descriptor_destroy = λ w method. record w { methods = rest_of w.methods };
  request = λ w process method. (record w { offsets = 48 ∷ w.offsets }, (pos 0, some 48));
  container_path = λ w offsets. codes "/system/framework/oat/arm64/services.odex";
  container_offset = λ w offsets. 4096;
  method_offset = λ w offsets. 256;
  offsets_destroy = λ w offsets. record w { offsets = rest_of w.offsets };
}

manager-IsManager : IsManager manager
manager-IsManager = record {
  living = λ w. w;
  opening = λ w. refl;
  process_created = λ w uid pid name. refl;
  method_created = λ w fqcn name parameters. refl;
  requested = λ w process method. refl;
  process_destroyed = λ w process others h. ap (λ l. record w { processes = rest_of l }) h;
  method_destroyed = λ w method others h. ap (λ l. record w { methods = rest_of l }) h;
  offsets_destroyed = λ w o others h. ap (λ l. record w { offsets = rest_of l }) h;
}

abbrev nothing_lives : Living
nothing_lives = record { processes = []; methods = []; offsets = [] }

get_executable_method_file_offsets-living_example :
    (get_executable_method_file_offsets manager nothing_lives
      (codes "system_server")
      (codes "com.android.server.am.ActivityManagerService")
      (codes "attachApplication")
      (codes "int" ∷ [])).0
    ≡ nothing_lives
unfolding manager-IsManager
get_executable_method_file_offsets-living_example =
    get_executable_method_file_offsets-living manager manager-IsManager nothing_lives
      (codes "system_server") (codes "com.android.server.am.ActivityManagerService")
      (codes "attachApplication") (codes "int" ∷ [])
