-- ===== src/Ffi/ActivityManager/Laws.antt =====
-- How the calls of the activity manager reach the device.
use platform_packages_module.Prelude.{
  List, [], ◌∷◌, ◌≡◌, refl, none, some, Bool, ◌&&◌, if◌then◌else◌, pos, negsuc, map, arith, ◌==◌,
  ap, sym, ◌∙◌,
}
use platform_packages_module.Ffi.ActivityManager.{
  Call, Value, nothing, number, address, address_and, Device, Process, check_api_availability,
  are_apis_available, gated, ffi, run, get_running_app_processes, create_process_observer,
  destroy_process_observer, set_on_process_started, set_on_foreground_activities_changed,
  set_on_foreground_services_changed, set_on_process_died, register_process_observer,
  unregister_process_observer, list_destroy, list_get, list_get_size, get_importance,
  get_package_list, get_pid, get_process_name, get_uid,
}

-- What a process sees of a device without the functions: errors for requests, no process, no
-- observer, and of a process that its importance is IMPORTANCE_GONE.
abbrev pub absent : Call → Value
absent (get_running_app_processes out) = number (negsuc 0)
absent (register_process_observer observer) = number (negsuc 0)
absent (create_process_observer cookie) = address 0
absent (list_get list index) = address 0
absent (get_process_name info) = address 0
absent (list_get_size list) = number (pos 0)
absent (get_importance info) = number (pos 1000)
absent (get_package_list info out) = address_and 0 (if out == 0 then none else some 0)
absent (get_pid info) = number (negsuc 0)
absent (get_uid info) = number (pos 4294967295)
absent _ = nothing

module _ (device : Device) where
  -- The calls as the device serves them, with no check between.
  abbrev pub served : List Call → device.World → device.World × List Value
  served [] w = (w, [])
  served (c ∷ cs) w =
      let (w1, value) = device.call w c in let (w2, values) = served cs w1 in (w2, value ∷ values)

  -- The calls of a process that knows whether the functions are available.
  abbrev pub known : (available : Bool) → List Call → device.World → device.World × List Value
  known available cs w =
      if available && device.is_android_37 then served cs w else (w, map absent cs)

  gated-checked :
      (c : Call) (fallback : Value) (available : Bool) (w : device.World)
      → gated device c fallback (record { world = w; checked = some available }) ≡ (
          if available && device.is_android_37
          then (
            record { world = (device.call w c).0; checked = some available },
            (device.call w c).1,
          )
          else (record { world = w; checked = some available }, fallback))
  unfolding gated are_apis_available
  gated-checked c fallback available w = ground arith

  gated-fresh :
      (c : Call) (fallback : Value) (w : device.World)
      → let (w1, available) = check_api_availability device w in
        gated device c fallback (record { world = w; checked = none })
        ≡ gated device c fallback (record { world = w1; checked = some available })
  unfolding gated are_apis_available
  gated-fresh c fallback w = refl

  ffi-gated : (c : Call) (p : Process device.World) → ffi device c p ≡ gated device c (absent c) p
  unfolding ffi
  ffi-gated (get_running_app_processes out) p = refl
  ffi-gated (create_process_observer cookie) p = refl
  ffi-gated (destroy_process_observer observer) p = refl
  ffi-gated (set_on_process_started observer callback) p = refl
  ffi-gated (set_on_foreground_activities_changed observer callback) p = refl
  ffi-gated (set_on_foreground_services_changed observer callback) p = refl
  ffi-gated (set_on_process_died observer callback) p = refl
  ffi-gated (register_process_observer observer) p = refl
  ffi-gated (unregister_process_observer observer) p = refl
  ffi-gated (list_destroy list) p = refl
  ffi-gated (list_get list index) p = refl
  ffi-gated (list_get_size list) p = refl
  ffi-gated (get_importance info) p = refl
  ffi-gated (get_package_list info out) p = refl
  ffi-gated (get_pid info) p = refl
  ffi-gated (get_process_name info) p = refl
  ffi-gated (get_uid info) p = refl

  run-checked :
      (cs : List Call) (available : Bool) (w : device.World)
      → run device cs (record { world = w; checked = some available }) ≡ (
        record { world = (known available cs w).0; checked = some available },
        (known available cs w).1,
      )
  unfolding run
  run-checked [] available w = ground arith
  run-checked (c ∷ cs) available w = ground (
    arith,
    ffi-gated c (record { world = w; checked = some available }),
    gated-checked c (absent c) available w,
    run-checked cs available w,
    run-checked cs available (device.call w c).0,
  )

  -- However many calls a process makes, it looks for the functions once, at its first call. If they
  -- are there and the device's version is at least 37, all calls reach the device, in their order;
  -- else none does, and each answers a value of its own for a device without the functions.
  pub run-fresh :
      (c : Call) (cs : List Call) (w : device.World)
      → let (w1, available) = check_api_availability device w in
        let (w2, values) = known available (c ∷ cs) w1 in
        run device (c ∷ cs) (record { world = w; checked = none })
        ≡ (record { world = w2; checked = some available }, values)
  unfolding run
  run-fresh c cs w =
      let (w1, available) = check_api_availability device w in
      ap
        (λ (r : Process device.World × Value). ((run device cs r.0).0, r.1 ∷ (run device cs r.0).1))
        (ffi-gated c (record { world = w; checked = none })
          ∙ gated-fresh c (absent c) w
          ∙ sym (ffi-gated c (record { world = w1; checked = some available })))
      ∙ run-checked (c ∷ cs) available w1
