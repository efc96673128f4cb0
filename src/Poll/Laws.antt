-- ===== src/Poll/Laws.antt =====
-- What a polling thread does over its time.
use platform_packages_module.Prelude.{
  ◌<◌, leb, ℕ, zero, suc, ◌+◌, ◌-◌, ◌*◌, ◌/◌, ◌^◌, ◌≤◌, ◌≡◌, refl, ◌⊎◌, inl, inr, List, [], ◌∷◌,
  Option, none, some, true, false, arith, Any, ℤ, pos, negsuc, is_negative, length, get_elem?,
  Bool-cases, Option-cases,
}
use platform_packages_module.Config.{LoggingConfig}
use platform_packages_module.Progs.Structs.{CallResult}
use platform_packages_module.Poll.{Round, timeout_ms, PollLog, extend, ended, do_poll}
use platform_packages_module.Poll.Atoms.{
  MapKind, is_supported, generic_detail, argument_at, argument_fields, atom_of, batch_atoms,
}

-- Within the duration, which is at most 2147483 seconds, the timeout is the remaining time: it is
-- not negative, and it is the whole milliseconds that remain.
pub timeout_ms-remaining :
    (seconds reading : ℕ)
    → seconds ≤ 2_147_483
    → reading ≤ seconds * 10 ^ 9
    → timeout_ms (pos seconds) reading ≡ pos ((seconds * 10 ^ 9 - reading) / 10 ^ 6)
unfolding timeout_ms
timeout_ms-remaining seconds reading h r = ground arith

-- A clock that is read from one millisecond to 2147483 seconds past the end gives a negative
-- timeout, with which the poll waits without limit.
pub timeout_ms-negative :
    (seconds reading : ℕ)
    → seconds * 10 ^ 9 + 10 ^ 6 ≤ reading
    → reading ≤ seconds * 10 ^ 9 + 2_147_483 * 10 ^ 9
    → is_negative (timeout_ms (pos seconds) reading) ≡ true
unfolding timeout_ms
timeout_ms-negative seconds reading h r = ground arith

-- For a duration of at most 2147483 seconds and a reading of the clock at most as long after its end:
-- until the end the timeout is the whole milliseconds that remain; in the first millisecond after it
-- the timeout is 0; later it is negative, with which the poll waits without limit.
pub timeout_ms_lem :
    (seconds reading : ℕ)
    → seconds ≤ 2_147_483
    → reading ≤ seconds * 10 ^ 9 + 2_147_483 * 10 ^ 9
    → ((reading ≤ seconds * 10 ^ 9)
        × (timeout_ms (pos seconds) reading ≡ pos ((seconds * 10 ^ 9 - reading) / 10 ^ 6)))
      ⊎ (((seconds * 10 ^ 9 < reading)
            × (reading < seconds * 10 ^ 9 + 10 ^ 6)
            × (timeout_ms (pos seconds) reading ≡ pos 0))
          ⊎ ((seconds * 10 ^ 9 + 10 ^ 6 ≤ reading)
              × (is_negative (timeout_ms (pos seconds) reading) ≡ true)))
unfolding timeout_ms
timeout_ms_lem seconds reading h r = elim (Bool-cases (leb reading (seconds * 10 ^ 9))) [
  | inl e ↦ inl (ground (arith, e), timeout_ms-remaining seconds reading h (ground (arith, e)))
  | inr e ↦ elim (Bool-cases (leb (seconds * 10 ^ 9 + 10 ^ 6) reading)) [
    | inl f ↦
        inr (inr (ground (arith, f), timeout_ms-negative seconds reading (ground (arith, f)) r))
    | inr f ↦ inr (inl (ground (arith, e), ground (arith, f), ground (arith, e, f)))
  ]
]

-- A position that the ten registers of a record do not reach: below -2 or above 7.
abbrev pub IsOutside : ℤ → Type 0
IsOutside (pos n) = 8 ≤ n
IsOutside (negsuc n) = 2 ≤ n

get_elem?-beyond : (xs : List ℕ) (i : ℕ) → length xs ≤ i → get_elem? xs i ≡ none
get_elem?-beyond [] i h = refl
get_elem?-beyond (x ∷ xs) zero h = absurd (omega arith)
get_elem?-beyond (x ∷ xs) (suc i) h = get_elem?-beyond xs i (omega arith)

argument_at-outside :
    (regs : List ℕ) (p : ℤ) → length regs ≡ 10 → IsOutside p → argument_at regs p ≡ none
unfolding argument_at
argument_at-outside regs (pos n) e h = get_elem?-beyond regs (n + 2) (omega arith)
argument_at-outside regs (negsuc n) e h = ground arith

argument_fields-outside :
    (regs : List ℕ) (ps : List ℤ)
    → length regs ≡ 10
    → Any IsOutside ps
    → argument_fields regs ps ≡ none
unfolding argument_fields
argument_fields-outside regs [] e h = absurd h
argument_fields-outside regs (p ∷ ps) e (inl h) =
    rw (argument_at-outside regs p e h, argument_fields)
argument_fields-outside regs (p ∷ ps) e (inr h) =
    ground (arith, argument_fields-outside regs ps e h)

-- A configured argument position outside -2 to 7 makes every record of a `call_detail` ring buffer
-- a read outside the register array: no atom is defined for it.
pub atom_of-outside :
    (c : LoggingConfig) (v : CallResult)
    → length v.regs ≡ 10
    → Any IsOutside c.primitive_argument_positions
    → atom_of generic_detail c v ≡ none
unfolding atom_of
atom_of-outside c v e h =
    rw (argument_fields-outside v.regs c.primitive_argument_positions e h, atom_of)

-- Without a logging configuration, and for a ring buffer that is not supported, no atom is written,
-- whatever records come.
pub do_poll-silent :
    (k : MapKind) (duration : ℤ) (logging : Option LoggingConfig) (now : ℕ)
    (rounds : List (Round k)) {log : PollLog}
    → (is_supported k ≡ false) ⊎ (logging ≡ none)
    → do_poll k duration logging now rounds ≡ some log
    → log.atoms ≡ []
unfolding do_poll ended extend batch_atoms
do_poll-silent k duration logging now [] h e = ground arith
do_poll-silent k duration logging now (r ∷ rs) (inl h) e = ground arith
do_poll-silent k duration none now (r ∷ rs) (inr h) e =
    elim (Option-cases (do_poll k duration none r.finished rs)) [
      | inl n ↦ ground arith
      | inr (log', n) ↦ ground (arith, do_poll-silent k duration none r.finished rs (inr refl) n)
    ]
do_poll-silent k duration (some c) now (r ∷ rs) (inr h) e = cc
