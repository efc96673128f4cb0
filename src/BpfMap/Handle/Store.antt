-- ===== src/BpfMap/Handle/Store.antt =====
-- Several objects of `BpfMap`, and sequences of operations on them.
use platform_packages_module.Prelude.{
  ℕ, Option, none, some, Bool, List, [], ◌∷◌, ◌==◌, if◌then◌else◌, Text, get_elem?, set,
}
use platform_packages_module.BpfMap.Handle.{
  System, Handle, Ended, aborted, ended, construct_ro, construct_rw, init_ro, init_rw, reset,
  move_assign, copy_assign, reset_map,
}

-- An operation, on the objects at some indices; the constructors make a new object.
pub data Op : Type 0 where
  construct : (writable : Bool) → Text → Op
  init : (writable : Bool) → ℕ → Text → Op
  reset_at : ℕ → Op
  move copy : (this other : ℕ) → Op
  reset_map_at : ℕ → (map_type max_entries map_flags : ℕ) → Op

module _ (sys : System) where
  -- The objects and the state of the system; nothing if the process has aborted.
  abbrev pub Store : Type 0
  Store = Option (sys.files.World × List Handle)

  abbrev pub made : List Handle → Ended sys.files.World → Store
  made hs aborted = none
  made hs (ended w h error) = some (w, h ∷ hs)

  abbrev pub changed : List Handle → ℕ → Ended sys.files.World → Store
  changed hs i aborted = none
  changed hs i (ended w h error) = some (w, set hs i h)

  abbrev pub moved : List Handle → (i j : ℕ) → sys.files.World × (Handle × Handle) → Store
  moved hs i j (w, (h, g)) = some (w, set (set hs i h) j g)

  -- An operation on one object, if there is one.
  abbrev pub on_one :
      sys.files.World → List Handle → ℕ → Option Handle → (Handle → Ended sys.files.World) → Store
  on_one w hs i none f = some (w, hs)
  on_one w hs i (some h) f = changed hs i (f h)

  -- An operation on two objects; an object is not moved or copied to itself.
  abbrev pub on_two :
      sys.files.World
      → List Handle
      → (i j : ℕ) → Option Handle
      → Option Handle
      → (Handle → Handle → Store)
      → Store
  on_two w hs i j none other f = some (w, hs)
  on_two w hs i j (some h) none f = some (w, hs)
  on_two w hs i j (some h) (some g) f = if i == j then some (w, hs) else f h g

  unfoldable pub step : Op → sys.files.World → List Handle → Store
  step (construct writable path) w hs =
      made hs (if writable then construct_rw sys w path else construct_ro sys w path)
  step (init writable i path) w hs =
      on_one w hs i (get_elem? hs i)
        λ h. if writable then init_rw sys w h path else init_ro sys w h path
  step (reset_at i) w hs = on_one w hs i (get_elem? hs i) (reset sys w)
  step (move i j) w hs =
      on_two w hs i j (get_elem? hs i) (get_elem? hs j) λ h g. moved hs i j (move_assign sys w h g)
  step (copy i j) w hs =
      on_two w hs i j (get_elem? hs i) (get_elem? hs j) λ h g. changed hs i (copy_assign sys w h g)
  step (reset_map_at i map_type max_entries map_flags) w hs =
      on_one w hs i (get_elem? hs i) λ h. reset_map sys w h map_type max_entries map_flags

  abbrev pub then_run : Store → (sys.files.World → List Handle → Store) → Store
  then_run none f = none
  then_run (some (w, hs)) f = f w hs

  unfoldable pub run : List Op → sys.files.World → List Handle → Store
  run [] w hs = some (w, hs)
  run (op ∷ ops) w hs = then_run (step op w hs) (run ops)
