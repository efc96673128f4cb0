-- ===== src/BpfMap/Handle/Laws.antt =====
-- The objects own their descriptors: none is leaked and none is owned twice.
use platform_packages_module.Prelude.{
  ℕ, ◌+◌, ◌≤◌, ◌≡◌, ◌⊎◌, inl, inr, none, some, Bool, true, false, ◌==◌, ◌||◌, ◌&&◌, if◌then◌else◌,
  Text, ℤ, pos, negsuc, arith, refl, ℤ-cases, Bool-cases,
}
use platform_packages_module.Kernel.Calls.{obj_get, create_map, bpf_get_fd_map_id}
use platform_packages_module.Kernel.Lock.{
  Outcome, returned, LockType, read_lock, take_lock, bpf_lock, map_retrieve_ro, map_retrieve_rw,
  map_retrieve_lockless_rw, f_rdonly, is_minus_one, einval,
}
use platform_packages_module.BpfMap.Open.{mismatch, has_rdonly, has_wronly}
use platform_packages_module.BpfMap.Handle.{
  System, Handle, descriptor, Ended, aborted, ended, reset_to, check_fit, init_with, init_outcome,
  init_ro, init_rw, or_abort, reset, copy_assign, reset_map,
}

-- 1 for the descriptor, 0 for any other.
abbrev pub one : (m fd : ℕ) → ℕ
one m fd = if m == fd then 1 else 0

-- How often an object holds a descriptor.
abbrev pub held : ℕ → Handle → ℕ
held m none = 0
held m (some fd) = one m fd

-- The calls as they are documented: `is_open` tells 1 of an open descriptor and 0 of any other. What
-- opens a descriptor opens one that was closed, or fails; a lock opens and closes nothing; and an
-- open descriptor can be closed.
pub record IsSystem (sys : System) : Type 0 where
  pub is_open : sys.files.World → ℕ → ℕ
  pub at_most_once : (w : sys.files.World) (m : ℕ) → is_open w m ≤ 1
  pub gets :
      (w : sys.files.World) (path : Text) (flag m : ℕ)
      → is_open (sys.files.bpf w (obj_get path flag)).0 m
        ≡ is_open w m + held m (descriptor (sys.files.bpf w (obj_get path flag)).1)
  pub creates :
      (w : sys.files.World) (type key_size value_size max_entries flags m : ℕ)
      → is_open (sys.files.bpf w (create_map type key_size value_size max_entries flags)).0 m
        ≡ is_open w m
          + held m (
              descriptor
                (sys.files.bpf w (create_map type key_size value_size max_entries flags)).1)
  pub dups :
      (w : sys.files.World) (fd m : ℕ)
      → is_open (sys.dup w fd).0 m ≡ is_open w m + held m (descriptor (sys.dup w fd).1)
  pub locks :
      (w : sys.files.World) (fd : ℕ) (type : LockType) (start m : ℕ)
      → is_open (sys.files.set_lock w fd type start).0 m ≡ is_open w m
  pub lock_answers :
      (w : sys.files.World) (fd : ℕ) (type : LockType) (start : ℕ)
      → ((sys.files.set_lock w fd type start).1 ≡ pos 0)
        ⊎ ((sys.files.set_lock w fd type start).1 ≡ negsuc 0)
  pub closes :
      (w : sys.files.World) (fd m : ℕ)
      → is_open w fd ≡ 1
      → is_open (sys.files.close w fd) m + one m fd ≡ is_open w m

module _ (sys : System) (s : IsSystem sys) where
  -- From a state with one object to a state with another, the descriptor `m` goes with the object.
  abbrev pub Goes : (m : ℕ) → sys.files.World → Handle → sys.files.World → Handle → Type 0
  Goes m w h w1 h1 = s.is_open w1 m + held m h ≡ s.is_open w m + held m h1

  abbrev pub EndedGoes : (m : ℕ) → sys.files.World → Handle → Ended sys.files.World → Type 0
  EndedGoes m w h aborted = Unit
  EndedGoes m w h (ended w1 h1 error) = Goes m w h w1 h1

  -- An object's descriptor is open.
  abbrev pub HeldOpen : sys.files.World → Handle → Type 0
  HeldOpen w none = Unit
  HeldOpen w (some fd) = s.is_open w fd ≡ 1

  pub reset_to-Goes :
      (m : ℕ) (w : sys.files.World) (h new : Handle)
      → HeldOpen w h
      → s.is_open (reset_to sys w h new).0 m + held m h ≡ s.is_open w m
  reset_to-Goes m w none new o = omega arith
  reset_to-Goes m w (some old) new o = s.closes w old m o

  pub reset_to-handle : (w : sys.files.World) (h new : Handle) → (reset_to sys w h new).1 ≡ new
  reset_to-handle w none new = refl
  reset_to-handle w (some old) new = refl

  check_fit-Goes :
      (m : ℕ) (writable : Bool) (w : sys.files.World) (h : Handle) (w1 : sys.files.World) (fd : ℕ)
      → Goes m w h w1 (some fd)
      → EndedGoes m w h (check_fit sys writable w1 fd)
  unfolding check_fit
  check_fit-Goes m writable w h w1 fd g =
      elim (Bool-cases
        (mismatch sys.key_size sys.value_size sys.kvers writable (sys.files.info w1 fd))) [
          | inl e ↦ rw e tt
          | inr e ↦ rw e g
        ]

  init_with-Goes :
      (m : ℕ) (writable : Bool) (w w1 : sys.files.World) (h : Handle) (fd : ℤ)
      → HeldOpen w1 h
      → s.is_open w1 m ≡ s.is_open w m + held m (descriptor fd)
      → EndedGoes m w h (init_with sys writable w1 h fd)
  unfolding init_with
  init_with-Goes m writable w w1 h (negsuc n) o e =
      rw (reset_to-handle w1 h none) (omega (arith, reset_to-Goes m w1 h none o, e))
  init_with-Goes m writable w w1 h (pos fd) o e =
      check_fit-Goes m writable w h (reset_to sys w1 h (some fd)).0 fd
        (omega (arith, reset_to-Goes m w1 h (some fd) o, e))

  -- An object that stays open while nothing is closed.
  HeldOpen-kept :
      (w w1 : sys.files.World) (h : Handle)
      → ((m : ℕ) → s.is_open w m ≤ s.is_open w1 m)
      → HeldOpen w h
      → HeldOpen w1 h
  HeldOpen-kept w w1 none more o = tt
  HeldOpen-kept w w1 (some fd) more o = omega (arith, more fd, o, s.at_most_once w1 fd)

  init_opened-Goes :
      (m : ℕ) (writable : Bool) (w w1 : sys.files.World) (h : Handle) (fd : ℤ)
      → HeldOpen w h
      → ((k : ℕ) → s.is_open w1 k ≡ s.is_open w k + held k (descriptor fd))
      → EndedGoes m w h (init_with sys writable w1 h fd)
  init_opened-Goes m writable w w1 h fd o e =
      init_with-Goes m writable w w1 h fd (HeldOpen-kept w w1 h (λ (k : ℕ). omega (arith, e k)) o)
        (e m)

  pub init_ro-Goes :
      (m : ℕ) (w : sys.files.World) (h : Handle) (path : Text)
      → HeldOpen w h
      → EndedGoes m w h (init_ro sys w h path)
  unfolding init_ro map_retrieve_ro
  init_ro-Goes m w h path o =
      init_opened-Goes m false w (sys.files.bpf w (obj_get path f_rdonly)).0 h
        (sys.files.bpf w (obj_get path f_rdonly)).1 o (s.gets w path f_rdonly)

  -- What opening with a lock leaves: one more descriptor, or none.
  abbrev LockedGoes : sys.files.World → sys.files.World × Outcome → Type 0
  LockedGoes w (w1, Outcome.aborted) = Unit
  LockedGoes w (w1, returned fd) = (k : ℕ) → s.is_open w1 k ≡ s.is_open w k + held k (descriptor fd)

  take_lock-Goes :
      (w w1 : sys.files.World) (fd : ℕ) (map_id : ℕ)
      → ((k : ℕ) → s.is_open w1 k ≡ s.is_open w k + one k fd)
      → LockedGoes w (take_lock sys.files w1 fd read_lock map_id)
  unfolding take_lock
  take_lock-Goes w w1 fd map_id e =
      let w2 = (sys.files.set_lock w1 fd read_lock map_id).0 in
      let fd_open : s.is_open w2 fd ≡ 1 =
        ground (arith, e fd, s.at_most_once w2 fd, s.locks w1 fd read_lock map_id fd) in
      elim (s.lock_answers w1 fd read_lock map_id) [
        | inl a ↦ rw a λ (k : ℕ). omega (arith, s.locks w1 fd read_lock map_id k, e k)
        | inr a ↦ rw a λ (k : ℕ).
            omega (arith, s.closes w2 fd k fd_open, s.locks w1 fd read_lock map_id k, e k)
      ]

  LockedGoes-if :
      (w : sys.files.World) (b : Bool) (r q : sys.files.World × Outcome)
      → LockedGoes w r
      → LockedGoes w q
      → LockedGoes w (if b then r else q)
  LockedGoes-if w true r q h g = h
  LockedGoes-if w false r q h g = g

  bpf_lock-Goes :
      (w w1 : sys.files.World) (fd : ℤ)
      → ((k : ℕ) → s.is_open w1 k ≡ s.is_open w k + held k (descriptor fd))
      → LockedGoes w (bpf_lock sys.files w1 fd read_lock)
  unfolding bpf_lock
  bpf_lock-Goes w w1 (negsuc n) e = e
  bpf_lock-Goes w w1 (pos fd) e =
      let asked = bpf_get_fd_map_id (sys.files.info w1 fd) in
      elim (ℤ-cases asked.ret) [
        | inl (map_id, a) ↦
            let locked =
              if map_id == 0
              then (w1, Outcome.aborted)
              else take_lock sys.files w1 fd read_lock map_id in
            rw a (
              LockedGoes-if w (is_minus_one (pos map_id) && (asked.errno == einval))
                (w1, returned (pos fd)) locked e
                (LockedGoes-if w (map_id == 0) (w1, Outcome.aborted)
                  (take_lock sys.files w1 fd read_lock map_id) tt
                  (take_lock-Goes w w1 fd map_id e)))
        | inr (n, a) ↦ rw a (
            LockedGoes-if w (is_minus_one (negsuc n) && (asked.errno == einval))
              (w1, returned (pos fd)) (w1, Outcome.aborted) e tt)
      ]

  init_outcome-Goes :
      (m : ℕ) (w : sys.files.World) (h : Handle) (r : sys.files.World × Outcome)
      → HeldOpen w h
      → LockedGoes w r
      → EndedGoes m w h (init_outcome sys true r.0 h r.1)
  init_outcome-Goes m w h (w1, Outcome.aborted) o l = tt
  init_outcome-Goes m w h (w1, returned fd) o l = init_opened-Goes m true w w1 h fd o l

  pub init_rw-Goes :
      (m : ℕ) (w : sys.files.World) (h : Handle) (path : Text)
      → HeldOpen w h
      → EndedGoes m w h (init_rw sys w h path)
  unfolding init_rw map_retrieve_rw map_retrieve_lockless_rw
  init_rw-Goes m w h path o = init_outcome-Goes m w h _ o (
      bpf_lock-Goes w (sys.files.bpf w (obj_get path 0)).0 (sys.files.bpf w (obj_get path 0)).1
        (s.gets w path 0))

  pub or_abort-Goes :
      (m : ℕ) (w : sys.files.World) (h : Handle) (r : Ended sys.files.World)
      → EndedGoes m w h r
      → EndedGoes m w h (or_abort sys r)
  or_abort-Goes m w h aborted g = tt
  or_abort-Goes m w h (ended w1 none error) g = tt
  or_abort-Goes m w h (ended w1 (some fd) error) g = g

  pub reset-Goes :
      (m : ℕ) (w : sys.files.World) (h : Handle) → HeldOpen w h → EndedGoes m w h (reset sys w h)
  unfolding reset
  reset-Goes m w h o = rw (reset_to-handle w h none) (omega (arith, reset_to-Goes m w h none o))

  pub copy_assign-Goes :
      (m : ℕ) (w : sys.files.World) (this other : Handle)
      → HeldOpen w this
      → EndedGoes m w this (copy_assign sys w this other)
  unfolding copy_assign reset
  copy_assign-Goes m w this none o = reset-Goes m w this o
  copy_assign-Goes m w this (some fd) o =
      let w1 = (sys.dup w fd).0 in
      let new = descriptor (sys.dup w fd).1 in
      let this_open = HeldOpen-kept w w1 this (λ (k : ℕ). omega (arith, s.dups w fd k)) o in
      rw (reset_to-handle w1 this new)
        (omega (arith, reset_to-Goes m w1 this new this_open, s.dups w fd m))

  pub reset_map-Goes :
      (m : ℕ) (w : sys.files.World) (h : Handle) (map_type max_entries map_flags : ℕ)
      → HeldOpen w h
      → EndedGoes m w h (reset_map sys w h map_type max_entries map_flags)
  unfolding reset_map
  reset_map-Goes m w h map_type max_entries map_flags o =
      elim (Bool-cases (has_wronly map_flags || has_rdonly map_flags)) [
        | inl e ↦ rw e tt
        | inr e ↦ rw e (
            init_opened-Goes m true w _ h _ o
              (s.creates w map_type sys.key_size sys.value_size max_entries map_flags))
      ]
