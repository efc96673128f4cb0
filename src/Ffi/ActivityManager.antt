-- ===== src/Ffi/ActivityManager.antt =====
-- rust/ffi/activity_manager.cpp: the functions of the activity manager, which a device may lack.
pub mod Laws
use platform_packages_module.Prelude.{
  ℕ, List, [], ◌∷◌, Option, none, some, Bool, true, false, ◌==◌, if◌then◌else◌, ℤ, pos, negsuc,
}

-- The calls, with the addresses and the numbers that they are given; 0 is the null pointer.
pub data Call : Type 0 where
  get_running_app_processes : (out : ℕ) → Call
  create_process_observer : (cookie : ℕ) → Call
  destroy_process_observer : (observer : ℕ) → Call
  set_on_process_started : (observer callback : ℕ) → Call
  set_on_foreground_activities_changed : (observer callback : ℕ) → Call
  set_on_foreground_services_changed : (observer callback : ℕ) → Call
  set_on_process_died : (observer callback : ℕ) → Call
  register_process_observer : (observer : ℕ) → Call
  unregister_process_observer : (observer : ℕ) → Call
  list_destroy : (list : ℕ) → Call
  list_get : (list index : ℕ) → Call
  list_get_size : (list : ℕ) → Call
  get_importance : (info : ℕ) → Call
  get_package_list : (info out_num_packages : ℕ) → Call
  get_pid : (info : ℕ) → Call
  get_process_name : (info : ℕ) → Call
  get_uid : (info : ℕ) → Call

-- What a call answers: nothing, a number, an address, or an address and the number that was stored
-- through a pointer.
pub data Value : Type 0 where
  nothing : Value
  number : ℤ → Value
  address : ℕ → Value
  address_and : ℕ → (stored : Option ℕ) → Value

-- The device: the dynamic linker with libandroid.so and the symbol that is looked for, whether its
-- version is at least 37, and the functions.
pub record Device : Type 1 where
  pub World : Type 0
  pub dlopen : World → World × Bool
  pub dlsym : World → Bool
  pub dlclose : World → World
  pub is_android_37 : Bool
  pub call : World → Call → World × Value

-- The static variables: whether the check was made, and what it found.
pub record Process (World : Type 0) : Type 0 where
  pub world : World
  pub checked : Option Bool

module _ (device : Device) where
  -- `CheckApiAvailability`
  unfoldable pub check_api_availability : device.World → device.World × Bool
  check_api_availability w =
      let (w1, opened) = device.dlopen w in
      if opened then (device.dlclose w1, device.dlsym w1) else (w1, false)

  -- `AreApisAvailable`, with `call_once`
  unfoldable pub are_apis_available : Process device.World → Process device.World × Bool
  are_apis_available p =
      let (w1, found) = check_api_availability p.world in
      elim p.checked [
        | some available ↦ (p, available)
        | none ↦ (record { world = w1; checked = some found }, found)
      ]

  -- A call where the functions are available, else another value.
  unfoldable pub gated : Call → Value → Process device.World → Process device.World × Value
  gated c fallback p =
      let (p1, available) = are_apis_available p in
      let (w2, answer) = device.call p1.world c in
      if available
      then (if device.is_android_37 then (record p1 { world = w2 }, answer) else (p1, fallback))
      else (p1, fallback)

  -- The seventeen functions; 1000 is IMPORTANCE_GONE.
  unfoldable pub ffi : Call → Process device.World → Process device.World × Value
  ffi (get_running_app_processes out) = gated (get_running_app_processes out) (number (negsuc 0))
  ffi (create_process_observer cookie) = gated (create_process_observer cookie) (address 0)
  ffi (destroy_process_observer observer) = gated (destroy_process_observer observer) nothing
  ffi (set_on_process_started observer callback) =
      gated (set_on_process_started observer callback) nothing
  ffi (set_on_foreground_activities_changed observer callback) =
      gated (set_on_foreground_activities_changed observer callback) nothing
  ffi (set_on_foreground_services_changed observer callback) =
      gated (set_on_foreground_services_changed observer callback) nothing
  ffi (set_on_process_died observer callback) =
      gated (set_on_process_died observer callback) nothing
  ffi (register_process_observer observer) =
      gated (register_process_observer observer) (number (negsuc 0))
  ffi (unregister_process_observer observer) = gated (unregister_process_observer observer) nothing
  ffi (list_destroy list) = gated (list_destroy list) nothing
  ffi (list_get list index) = gated (list_get list index) (address 0)
  ffi (list_get_size list) = gated (list_get_size list) (number (pos 0))
  ffi (get_importance info) = gated (get_importance info) (number (pos 1000))
  ffi (get_package_list info out) =
      gated (get_package_list info out) (address_and 0 (if out == 0 then none else some 0))
  ffi (get_pid info) = gated (get_pid info) (number (negsuc 0))
  ffi (get_process_name info) = gated (get_process_name info) (address 0)
  ffi (get_uid info) = gated (get_uid info) (number (pos 4294967295))

  -- The calls of a process, one after another.
  unfoldable pub run : List Call → Process device.World → Process device.World × List Value
  run [] p = (p, [])
  run (c ∷ cs) p = let (p1, value) = ffi c p in let (p2, values) = run cs p1 in (p2, value ∷ values)
