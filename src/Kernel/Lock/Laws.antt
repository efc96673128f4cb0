-- ===== src/Kernel/Lock/Laws.antt =====
-- Opening pinned maps and programs: the descriptors that stay open, and the locks on the maps.
use platform_packages_module.Prelude.{
  ℕ, ◌∷◌, List, ◌≡◌, Text, ℤ, pos, negsuc, arith, ℤ-cases, ◌⊎◌, inl, inr,
}
use platform_packages_module.Kernel.Calls.{obj_get, bpf_get_fd_map_id}
use platform_packages_module.Kernel.Lock.{
  LockType, read_lock, write_lock, Files, Outcome, aborted, returned, take_lock, bpf_lock, f_wronly,
  f_rdonly, map_retrieve_lockless_rw, map_retrieve_exclusive_rw, map_retrieve_rw, map_retrieve_wo,
  retrieve_program, usable_program,
}

-- The calls as they are documented, with the open descriptors of a state: opening an object opens a
-- descriptor or fails, a lock opens and closes nothing and answers 0 or -1, and a descriptor is
-- closed.
pub record IsFiles (files : Files) : Type 0 where
  pub open_fds : files.World → List ℕ
  pub opens :
      (w : files.World) (path : Text) (flag n : ℕ)
      → (files.bpf w (obj_get path flag)).1 ≡ pos n
      → open_fds (files.bpf w (obj_get path flag)).0 ≡ n ∷ open_fds w
  pub refuses :
      (w : files.World) (path : Text) (flag n : ℕ)
      → (files.bpf w (obj_get path flag)).1 ≡ negsuc n
      → open_fds (files.bpf w (obj_get path flag)).0 ≡ open_fds w
  pub locks :
      (w : files.World) (fd : ℕ) (type : LockType) (start : ℕ)
      → open_fds (files.set_lock w fd type start).0 ≡ open_fds w
  pub lock_answers :
      (w : files.World) (fd : ℕ) (type : LockType) (start : ℕ)
      → ((files.set_lock w fd type start).1 ≡ pos 0)
        ⊎ ((files.set_lock w fd type start).1 ≡ negsuc 0)
  pub closes :
      (w : files.World) (fd : ℕ) (others : List ℕ)
      → open_fds w ≡ fd ∷ others
      → open_fds (files.close w fd) ≡ others

-- The descriptors after an ending, from those before: one more if one is returned, else the same.
-- Nothing is said of an abort.
abbrev pub Owns : List ℕ → List ℕ → Outcome → Type 0
Owns before after aborted = Unit
Owns before after (returned (pos fd)) = after ≡ fd ∷ before
Owns before after (returned (negsuc n)) = after ≡ before

module _ (files : Files) (f : IsFiles files) where
  abbrev OwnsAfter : List ℕ → files.World × Outcome → Type 0
  OwnsAfter before r = Owns before (f.open_fds r.0) r.1

  take_lock-Owns :
      (before : List ℕ) (w : files.World) (fd : ℕ) (type : LockType) (map_id : ℕ)
      → f.open_fds w ≡ fd ∷ before
      → OwnsAfter before (take_lock files w fd type map_id)
  unfolding take_lock
  take_lock-Owns before w fd type map_id e =
      let (w1, ret) = files.set_lock w fd type map_id in
      elim (f.lock_answers w fd type map_id) [
        | inl a ↦ ground (arith, a, e, f.locks w fd type map_id)
        | inr a ↦ ground (arith, a, e, f.locks w fd type map_id, f.closes w1 fd before)
      ]

  bpf_lock-Owns :
      (before : List ℕ) (w : files.World) (fd : ℤ) (type : LockType)
      → Owns before (f.open_fds w) (returned fd)
      → OwnsAfter before (bpf_lock files w fd type)
  unfolding bpf_lock
  bpf_lock-Owns before w (negsuc n) type h = h
  bpf_lock-Owns before w (pos fd) type h =
      elim (ℤ-cases (bpf_get_fd_map_id (files.info w fd)).ret) [
        | inl (n, e) ↦ ground (arith, e, h, take_lock-Owns before w fd type n h)
        | inr (n, e) ↦ ground (arith, e, h)
      ]

  -- What `bpfFdGet` does to the open descriptors.
  opened-Owns :
      (w : files.World) (path : Text) (flag : ℕ)
      → Owns
          (f.open_fds w)
          (f.open_fds (files.bpf w (obj_get path flag)).0)
          (returned (files.bpf w (obj_get path flag)).1)
  opened-Owns w path flag = elim (ℤ-cases (files.bpf w (obj_get path flag)).1) [
    | inl (n, e) ↦ ground (arith, e, f.opens w path flag n e)
    | inr (n, e) ↦ ground (arith, e, f.refuses w path flag n e)
  ]

  usable_program-open_fds :
      (w : files.World) (path : Text) → f.open_fds (usable_program files w path).0 ≡ f.open_fds w
  unfolding usable_program retrieve_program
  usable_program-open_fds w path =
      let (w1, fd) = files.bpf w (obj_get path f_rdonly) in
      elim (ℤ-cases fd) [
        | inl (n, e) ↦ ground (arith, e, f.opens w path f_rdonly n e, f.closes w1 n (f.open_fds w))
        | inr (n, e) ↦ ground (arith, e, f.refuses w path f_rdonly n e)
      ]

  -- A pinned map that is opened, for one writer, for several readers, or to be written only, leaves
  -- one more descriptor open, the one that is returned, and none on an error, not even when it was
  -- opened and the lock was held by another, if the calls behave as documented. A program that is
  -- looked for leaves the descriptors as they were. (An abort is not covered.)
  pub retrieve-Owns :
      (w : files.World) (path : Text)
      → OwnsAfter (f.open_fds w) (map_retrieve_exclusive_rw files w path)
        × OwnsAfter (f.open_fds w) (map_retrieve_rw files w path)
        × OwnsAfter (f.open_fds w) (map_retrieve_wo files w path)
        × (f.open_fds (usable_program files w path).0 ≡ f.open_fds w)
  unfolding map_retrieve_exclusive_rw map_retrieve_rw map_retrieve_wo map_retrieve_lockless_rw
  retrieve-Owns w path =
      let (w1, fd) = files.bpf w (obj_get path 0) in
      let (w2, fd') = files.bpf w (obj_get path f_wronly) in
      (
        bpf_lock-Owns (f.open_fds w) w1 fd write_lock (opened-Owns w path 0),
        bpf_lock-Owns (f.open_fds w) w1 fd read_lock (opened-Owns w path 0),
        bpf_lock-Owns (f.open_fds w) w2 fd' write_lock (opened-Owns w path f_wronly),
        usable_program-open_fds w path,
      )
