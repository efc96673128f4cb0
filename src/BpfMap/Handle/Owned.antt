-- ===== src/BpfMap/Handle/Owned.antt =====
-- Whatever is done with objects of `BpfMap`, they own the descriptors that they hold.
use platform_packages_module.Prelude.{
  ℕ, zero, suc, ◌+◌, ◌≤◌, ◌≡◌, inl, inr, none, some, Bool, true, false, List, [], ◌∷◌, ◌==◌,
  if◌then◌else◌, get_elem?, set, arith, refl, Option-cases, ◌∙◌,
}
use platform_packages_module.BpfMap.Handle.{
  System, Handle, Ended, aborted, ended, init_ro, init_rw, construct_ro, construct_rw, reset,
  move_assign, copy_assign, reset_map,
}
use platform_packages_module.BpfMap.Handle.Laws.{
  held, IsSystem, EndedGoes, HeldOpen, init_ro-Goes, init_rw-Goes, or_abort-Goes, reset-Goes,
  copy_assign-Goes, reset_map-Goes, reset_to-Goes, reset_to-handle,
}
use platform_packages_module.BpfMap.Handle.Store.{
  Op, construct, init, reset_at, move, copy, reset_map_at, Store, made, changed, moved, on_one,
  on_two, step, then_run, run,
}

-- How often some objects hold a descriptor.
abbrev pub total : ℕ → List Handle → ℕ
total m [] = 0
total m (h ∷ hs) = held m h + total m hs

total-set :
    (m : ℕ) (hs : List Handle) (i : ℕ) (h new : Handle)
    → get_elem? hs i ≡ some h
    → total m (set hs i new) + held m h ≡ total m hs + held m new
total-set m [] i h new e = cc
total-set m (g ∷ hs) zero h new e = ground (arith, e)
total-set m (g ∷ hs) (suc i) h new e = omega (arith, total-set m hs i h new e)

get_elem?-set :
    (hs : List Handle) (i j : ℕ) (new : Handle)
    → (i == j) ≡ false
    → get_elem? (set hs i new) j ≡ get_elem? hs j
get_elem?-set [] i j new e = refl
get_elem?-set (g ∷ hs) zero zero new e = cc
get_elem?-set (g ∷ hs) zero (suc j) new e = refl
get_elem?-set (g ∷ hs) (suc i) zero new e = refl
get_elem?-set (g ∷ hs) (suc i) (suc j) new e = get_elem?-set hs i j new (ground (arith, e))

held-le-total :
    (m : ℕ) (hs : List Handle) (i : ℕ) (h : Handle)
    → get_elem? hs i ≡ some h
    → held m h ≤ total m hs
held-le-total m [] i h e = cc
held-le-total m (g ∷ hs) zero h e = ground (arith, e)
held-le-total m (g ∷ hs) (suc i) h e = omega (arith, held-le-total m hs i h e)

held_self : (fd : ℕ) → held fd (some fd) ≡ 1
held_self fd = ground arith

module _ (sys : System) (s : IsSystem sys) (elsewhere : ℕ → ℕ) where
  -- A descriptor is open exactly as often as the objects hold it and others do.
  abbrev pub Owned : Store sys → Type 0
  Owned none = Unit
  Owned (some (w, hs)) = (m : ℕ) → s.is_open w m ≡ total m hs + elsewhere m

  Owned-HeldOpen :
      (w : sys.files.World) (hs : List Handle) (i : ℕ) (h : Handle)
      → Owned (some (w, hs))
      → get_elem? hs i ≡ some h
      → HeldOpen sys s w h
  Owned-HeldOpen w hs i none o e = tt
  Owned-HeldOpen w hs i (some fd) o e =
      omega (arith, held-le-total fd hs i (some fd) e, held_self fd, o fd, s.at_most_once w fd)

  made-Owned :
      (w : sys.files.World) (hs : List Handle) (r : Ended sys.files.World)
      → Owned (some (w, hs))
      → ((m : ℕ) → EndedGoes sys s m w none r)
      → Owned (made sys hs r)
  made-Owned w hs aborted o g = tt
  made-Owned w hs (ended w1 h error) o g = λ (m : ℕ). omega (arith, o m, g m)

  changed-Owned :
      (w : sys.files.World) (hs : List Handle) (i : ℕ) (h : Handle) (r : Ended sys.files.World)
      → Owned (some (w, hs))
      → get_elem? hs i ≡ some h
      → ((m : ℕ) → EndedGoes sys s m w h r)
      → Owned (changed sys hs i r)
  changed-Owned w hs i h aborted o e g = tt
  changed-Owned w hs i h (ended w1 new error) o e g =
      λ (m : ℕ). omega (arith, o m, g m, total-set m hs i h new e)

  on_one-Owned :
      (w : sys.files.World) (hs : List Handle) (i : ℕ) (f : Handle → Ended sys.files.World)
      → Owned (some (w, hs))
      → ((h : Handle) → HeldOpen sys s w h → (m : ℕ) → EndedGoes sys s m w h (f h))
      → Owned (on_one sys w hs i (get_elem? hs i) f)
  on_one-Owned w hs i f o g = elim (Option-cases (get_elem? hs i)) [
    | inl e ↦ rw e o
    | inr (h, e) ↦ rw e (changed-Owned w hs i h (f h) o e (g h (Owned-HeldOpen w hs i h o e)))
  ]

  if-Owned :
      (b : Bool) (p q : Store sys) → Owned p → (b ≡ false → Owned q) → Owned (if b then p else q)
  if-Owned true p q h g = h
  if-Owned false p q h g = g refl

  on_two-Owned :
      (w : sys.files.World) (hs : List Handle) (i j : ℕ) (f : Handle → Handle → Store sys)
      → Owned (some (w, hs))
      → ((h g : Handle)
          → (i == j) ≡ false
          → get_elem? hs i ≡ some h
          → get_elem? hs j ≡ some g
          → Owned (f h g))
      → Owned (on_two sys w hs i j (get_elem? hs i) (get_elem? hs j) f)
  on_two-Owned w hs i j f o k = elim (Option-cases (get_elem? hs i)) [
    | inl e ↦ rw e o
    | inr (h, e) ↦ elim (Option-cases (get_elem? hs j)) [
      | inl d ↦ rw (e, d) o
      | inr (g, d) ↦ rw (e, d) (if-Owned (i == j) (some (w, hs)) (f h g) o λ ne. k h g ne e d)
    ]
  ]

  moved-Owned :
      (w : sys.files.World) (hs : List Handle) (i j : ℕ) (h g : Handle)
      → Owned (some (w, hs))
      → (i == j) ≡ false
      → get_elem? hs i ≡ some h
      → get_elem? hs j ≡ some g
      → Owned (moved sys hs i j (move_assign sys w h g))
  unfolding move_assign
  moved-Owned w hs i j h g o ne e d = rw (reset_to-handle sys s w h g) λ (m : ℕ). omega (
    arith,
    o m,
    reset_to-Goes sys s m w h g (Owned-HeldOpen w hs i h o e),
    total-set m hs i h g e,
    total-set m (set hs i g) j g none (get_elem?-set hs i j g ne ∙ d),
  )

  step-Owned :
      (op : Op) (w : sys.files.World) (hs : List Handle)
      → Owned (some (w, hs))
      → Owned (step sys op w hs)
  unfolding step construct_ro construct_rw
  step-Owned (construct true path) w hs o = made-Owned w hs _ o λ (m : ℕ).
      or_abort-Goes sys s m w none (init_rw sys w none path) (init_rw-Goes sys s m w none path tt)
  step-Owned (construct false path) w hs o = made-Owned w hs _ o λ (m : ℕ).
      or_abort-Goes sys s m w none (init_ro sys w none path) (init_ro-Goes sys s m w none path tt)
  step-Owned (init true i path) w hs o =
      on_one-Owned w hs i (λ h. init_rw sys w h path) o λ h k m. init_rw-Goes sys s m w h path k
  step-Owned (init false i path) w hs o =
      on_one-Owned w hs i (λ h. init_ro sys w h path) o λ h k m. init_ro-Goes sys s m w h path k
  step-Owned (reset_at i) w hs o =
      on_one-Owned w hs i (reset sys w) o λ h k m. reset-Goes sys s m w h k
  step-Owned (move i j) w hs o =
      on_two-Owned w hs i j (λ h g. moved sys hs i j (move_assign sys w h g)) o
        λ h g ne e d. moved-Owned w hs i j h g o ne e d
  step-Owned (copy i j) w hs o =
      on_two-Owned w hs i j (λ h g. changed sys hs i (copy_assign sys w h g)) o
        λ h g ne e d.
          changed-Owned w hs i h (copy_assign sys w h g) o e
            λ (m : ℕ). copy_assign-Goes sys s m w h g (Owned-HeldOpen w hs i h o e)
  step-Owned (reset_map_at i map_type max_entries map_flags) w hs o =
      on_one-Owned w hs i (λ h. reset_map sys w h map_type max_entries map_flags) o
        λ h k m. reset_map-Goes sys s m w h map_type max_entries map_flags k

  then_run-Owned :
      (st : Store sys) (f : sys.files.World → List Handle → Store sys)
      → Owned st
      → ((w : sys.files.World) (hs : List Handle) → Owned (some (w, hs)) → Owned (f w hs))
      → Owned (then_run sys st f)
  then_run-Owned none f o k = tt
  then_run-Owned (some (w, hs)) f o k = k w hs o

  -- Whatever sequence of constructions, initializations, resets, moves and copies is done with
  -- objects of `BpfMap`, and whether they succeed or fail: if the process does not abort, a
  -- descriptor is open exactly if one object holds it or it was open elsewhere before. So none is
  -- leaked, and no two objects hold the same one. The calls behave as documented.
  pub run-Owned :
      (ops : List Op) (w : sys.files.World) (hs : List Handle)
      → Owned (some (w, hs))
      → Owned (run sys ops w hs)
  unfolding run
  run-Owned [] w hs o = o
  run-Owned (op ∷ ops) w hs o =
      then_run-Owned (step sys op w hs) (run sys ops) (step-Owned op w hs o)
        λ w1 hs1 o1. run-Owned ops w1 hs1 o1
