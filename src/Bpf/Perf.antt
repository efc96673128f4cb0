-- ===== src/Bpf/Perf.antt =====
-- Attaching a program: what is returned, and what stays open.
use platform_packages_module.Prelude.{
  ◌≡◌, ◌⊎◌, inl, inr, refl, ap, List, ◌∷◌, none, some, true, false, arith, Bool-cases, Option-cases,
  Text, ℤ, pos, negsuc, is_negative,
}
use platform_packages_module.Bpf.{
  PerfKernel, PerfOpened, attr_for, same_fd, close_fd, attach, use_program, bpf_perf_event_open,
}

same_fd_self : (fd : ℤ) → same_fd fd fd ≡ true
same_fd_self (pos n) = ground arith
same_fd_self (negsuc n) = ground arith

same_fd→≡ : (a b : ℤ) → same_fd a b ≡ true → a ≡ b
same_fd→≡ (pos a) (pos b) h = ap pos (ground (arith, h))
same_fd→≡ (negsuc a) (negsuc b) h = ap negsuc (ground (arith, h))
same_fd→≡ (pos a) (negsuc b) h = cc
same_fd→≡ (negsuc a) (pos b) h = cc

module _ (k : PerfKernel) (fds : List ℤ) (filename : Text) (offset pid : ℤ) (path : Text) where
  -- The program and the type file are found, and the event is opened, with the attributes for the
  -- file and the offset.
  abbrev pub IsEvent : ℤ → Type 0
  IsEvent fd =
      (type_str : Text) × (k.pmu_type_file ≡ some type_str)
      × (is_negative (k.retrieve_program path) ≡ false)
      × (k.perf_event_open (attr_for filename offset (k.strtol type_str)) pid ≡ fd)
      × (is_negative fd ≡ false)

  -- One of the three is missing.
  abbrev pub HasNoEvent : Type 0
  HasNoEvent =
      (is_negative (k.retrieve_program path) ≡ true)
      ⊎ ((k.pmu_type_file ≡ none)
          ⊎ ((type_str : Text) × (k.pmu_type_file ≡ some type_str)
              × (is_negative (k.perf_event_open (attr_for filename offset (k.strtol type_str)) pid)
                  ≡ true)))

  -- Both requests on the event succeed.
  abbrev pub IsAttached : ℤ → Type 0
  IsAttached fd =
      (is_negative (k.set_bpf fd (k.retrieve_program path)) ≡ false)
      × (is_negative (k.enable fd) ≡ false)

  abbrev pub IsNotAttached : ℤ → Type 0
  IsNotAttached fd =
      (is_negative (k.set_bpf fd (k.retrieve_program path)) ≡ true)
      ⊎ (is_negative (k.enable fd) ≡ true)

  -- Closing a descriptor that was opened first or second.
  close_fd-first : (program : ℤ) → close_fd program (program ∷ fds) ≡ fds
  unfolding close_fd
  close_fd-first program = rw (same_fd_self program) refl

  close_fd-second : (program event : ℤ) → close_fd program (event ∷ program ∷ fds) ≡ event ∷ fds
  unfolding close_fd
  close_fd-second program event = elim (Bool-cases (same_fd program event)) [
    | inl same ↦ rw same (ap (λ f. f ∷ fds) (same_fd→≡ program event same))
    | inr other ↦ rw (other, same_fd_self program) refl
  ]

  -- How the call may end.
  abbrev pub IsOutcome : PerfOpened → Type 0
  IsOutcome out =
      ((out.ret ≡ negsuc 0) × (out.open_fds ≡ fds) × HasNoEvent)
      ⊎ ((fd : ℤ) × IsEvent fd
          × (out.open_fds ≡ fd ∷ fds)
          × (((out.ret ≡ pos 0) × IsAttached fd) ⊎ ((out.ret ≡ negsuc 0) × IsNotAttached fd)))

  -- `bpfPerfEventOpen` returns 0 or -1. It returns 0 exactly when the program and the type file are
  -- found, the event is opened and both requests on it succeed; then the event's descriptor is open
  -- beside those that were open before. It returns -1 with the descriptors of before if there is no
  -- event; but if a request on the event fails, it returns -1 with the event's descriptor left open.
  -- The program's descriptor is closed again in each case.
  pub bpf_perf_event_open-open_fds : IsOutcome (bpf_perf_event_open k fds filename offset pid path)
  unfolding bpf_perf_event_open use_program attach
  bpf_perf_event_open-open_fds =
      let program = k.retrieve_program path in
      elim (Bool-cases (is_negative program)) [
        | inl missing ↦ rw (missing, bpf_perf_event_open) (inl (refl, refl, inl refl))
        | inr found ↦ elim (Option-cases k.pmu_type_file) [
          | inl no_file ↦
              rw (found, no_file, bpf_perf_event_open)
                (inl (refl, close_fd-first program, inr (inl refl)))
          | inr (type_str, file) ↦
              let event = k.perf_event_open (attr_for filename offset (k.strtol type_str)) pid in
              elim (Bool-cases (is_negative event)) [
                | inl refused ↦
                    rw (found, file, refused, bpf_perf_event_open, use_program, attach)
                      (inl (refl, close_fd-first program, inr (inr (type_str, refl, refused))))
                | inr opened ↦ elim (Bool-cases (is_negative (k.set_bpf event program))) [
                  | inl not_set ↦
                      rw (found, file, opened, not_set, bpf_perf_event_open, use_program, attach)
                        (inr (
                          event,
                          (type_str, refl, refl, refl, opened),
                          close_fd-second program event,
                          inr (refl, inl not_set),
                        ))
                  | inr is_set ↦ elim (Bool-cases (is_negative (k.enable event))) [
                    | inl off ↦
                        rw
                          (
                            found, file, opened, is_set, off, bpf_perf_event_open, use_program,
                            attach,
                          )
                          (inr (
                            event,
                            (type_str, refl, refl, refl, opened),
                            close_fd-second program event,
                            inr (refl, inr off),
                          ))
                    | inr on ↦
                        rw
                          (
                            found, file, opened, is_set, on, bpf_perf_event_open, use_program,
                            attach,
                          )
                          (inr (
                            event,
                            (type_str, refl, refl, refl, opened),
                            close_fd-second program event,
                            inl (refl, (is_set, on)),
                          ))
                  ]
                ]
              ]
        ]
      ]
