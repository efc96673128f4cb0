-- ===== src/Poll/Time.antt =====
-- How long a ring buffer is polled.
use platform_packages_module.Prelude.{
  ℕ, ◌⊎◌, leb, zero, suc, ◌+◌, ◌*◌, ◌^◌, ◌≤◌, ◌<◌, ◌≡◌, refl, List, [], ◌∷◌, Option, some, true,
  false, arith, All, ℤ, pos, negsuc, length, is_some, Bool-cases, Option-cases, false≢true, inl,
  inr,
}
use platform_packages_module.Config.{LoggingConfig}
use platform_packages_module.Poll.{
  Round, before, timeout_ms, timed_out, PollLog, extend, ended, do_poll,
}
use platform_packages_module.Poll.Laws.{timeout_ms-remaining}
use platform_packages_module.Poll.Atoms.{MapKind, is_supported, batch_atoms}

module _ (k : MapKind) (logging : Option LoggingConfig) (seconds tick cost : ℕ) where
  -- The poll of a turn returns within its timeout, and what follows takes `cost` nanoseconds at most.
  abbrev pub IsWithin : ℤ → Round k → Type 0
  IsWithin (pos ms) r = r.finished ≤ r.reading + ms * 10 ^ 6 + cost
  IsWithin (negsuc n) r = Unit

  -- The environment keeps time: a turn that starts before the end takes `tick` nanoseconds or more,
  -- its remaining time is computed before the end, and it keeps its timeout. (Nothing is asked of
  -- the turns after the end.)
  abbrev pub KeepsTime : ℕ → List (Round k) → Type 0
  KeepsTime now [] = Unit
  KeepsTime now (r ∷ rs) =
      ((seconds * 10 ^ 9 ≤ now)
        ⊎ ((now + tick ≤ r.finished)
            × (r.reading ≤ seconds * 10 ^ 9)
            × IsWithin (timeout_ms (pos seconds) r.reading) r))
      × KeepsTime r.finished rs

  -- The clock after a number of turns.
  abbrev pub clock_after : ℕ → ℕ → List (Round k) → ℕ
  clock_after now zero rs = now
  clock_after now (suc n) [] = now
  clock_after now (suc n) (r ∷ rs) = clock_after r.finished n rs

  -- The loop ends by its time, and the clock is then past the end, by `cost` at most.
  abbrev pub EndsInTime : ℕ → List (Round k) → Type 0
  EndsInTime now rounds =
      (log : PollLog) × (do_poll k (pos seconds) logging now rounds ≡ some log)
      × (log.ending ≡ timed_out)
      × (seconds * 10 ^ 9 ≤ clock_after now (length log.timeouts) rounds)
      × (clock_after now (length log.timeouts) rounds ≤ seconds * 10 ^ 9 + cost)

  before-over : (now : ℕ) → seconds * 10 ^ 9 ≤ now → before now (pos seconds) ≡ false
  unfolding before
  before-over now h = ground (arith, h)

  before-going : (now : ℕ) → now < seconds * 10 ^ 9 → before now (pos seconds) ≡ true
  unfolding before
  before-going now h = ground (arith, h)

  EndsInTime-over :
      (now : ℕ) (rounds : List (Round k))
      → seconds * 10 ^ 9 ≤ now
      → now ≤ seconds * 10 ^ 9 + cost
      → EndsInTime now rounds
  unfolding do_poll ended
  EndsInTime-over now [] low high = (
    record { ending = timed_out; timeouts = []; atoms = [] },
    rw (before-over now low) refl,
    refl,
    low,
    high,
  )
  EndsInTime-over now (r ∷ rs) low high = (
    record { ending = timed_out; timeouts = []; atoms = [] },
    rw (before-over now low) refl,
    refl,
    low,
    high,
  )

  EndsInTime-turn :
      (now : ℕ) (r : Round k) (rs : List (Round k))
      → is_supported k ≡ true
      → is_some (batch_atoms k logging r.batch) ≡ true
      → now < seconds * 10 ^ 9
      → EndsInTime r.finished rs
      → EndsInTime now (r ∷ rs)
  unfolding do_poll
  EndsInTime-turn now r rs supported fine going (log, e, t, low, high) =
      elim (Option-cases (batch_atoms k logging r.batch)) [
        | inl b ↦ absurd (false≢true (rw b at fine))
        | inr (atoms, b) ↦ (
          extend (timeout_ms (pos seconds) r.reading) atoms log,
          rw (before-going now going, supported, b, do_poll, e),
          unfold extend in t,
          unfold extend in low,
          unfold extend in high,
        )
      ]

  -- A poll that keeps its timeout is over at the end, and `cost` later at most.
  IsWithin-end :
      (r : Round k)
      → seconds ≤ 2_147_483
      → r.reading ≤ seconds * 10 ^ 9
      → IsWithin (timeout_ms (pos seconds) r.reading) r
      → r.finished ≤ seconds * 10 ^ 9 + cost
  IsWithin-end r s early within =
      omega (arith, rw (timeout_ms-remaining seconds r.reading s early) at within)

  do_poll-from :
      (now : ℕ) (rounds : List (Round k))
      → is_supported k ≡ true
      → All (λ r. is_some (batch_atoms k logging r.batch) ≡ true) rounds
      → seconds ≤ 2_147_483
      → KeepsTime now rounds
      → seconds * 10 ^ 9 ≤ now + tick * length rounds
      → now ≤ seconds * 10 ^ 9 + cost
      → EndsInTime now rounds
  do_poll-from now [] supported fine s timed enough high =
      EndsInTime-over now [] (omega (arith, enough)) high
  do_poll-from now (r ∷ rs) supported fine s (inl over, timed) enough high =
      EndsInTime-over now (r ∷ rs) over high
  do_poll-from now (r ∷ rs) supported fine s (inr (long, early, within), timed) enough high =
      elim (Bool-cases (leb (seconds * 10 ^ 9) now)) [
        | inl over ↦ EndsInTime-over now (r ∷ rs) (ground (arith, over)) high
        | inr going ↦ EndsInTime-turn now r rs supported fine.0 (ground (arith, going)) (
            do_poll-from r.finished rs supported fine.1 s timed (grind (arith, long, enough))
              (IsWithin-end r s early within))
      ]

  -- A supported ring buffer is polled for its duration, of at most 2147483 seconds, and hardly longer.
  -- If each turn takes some nanoseconds at least (`tick`), computes its remaining time before the
  -- end, and leaves off when its timeout is over and its records are handled (in `cost` nanoseconds
  -- at most), and atoms are defined for all records, then the loop ends by its time, within as many
  -- turns as make up the duration at `tick` each; the clock then reads the duration at least, and no
  -- more than `cost` above it.
  pub do_poll-EndsInTime :
      (rounds : List (Round k))
      → is_supported k ≡ true
      → All (λ r. is_some (batch_atoms k logging r.batch) ≡ true) rounds
      → seconds ≤ 2_147_483
      → KeepsTime 0 rounds
      → seconds * 10 ^ 9 ≤ tick * length rounds
      → EndsInTime 0 rounds
  do_poll-EndsInTime rounds supported fine s timed enough =
      do_poll-from 0 rounds supported fine s timed (omega (arith, enough)) (omega arith)
