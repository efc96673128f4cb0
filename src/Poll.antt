-- ===== src/Poll.antt =====
-- UprobeStats.cpp, `doPoll`: the thread that turns the records of one ring buffer into statsd atoms.
pub mod Atoms
pub mod Laws
pub mod Time
mod Tests
use platform_packages_module.Prelude.{
  ℕ, ◌+◌, ◌-◌, ◌*◌, ◌/◌, ◌%◌, ◌^◌, List, [], ◌∷◌, ◌++◌, Option, none, some, Bool, true, false, not,
  ltb, leb, if◌then◌else◌, ℤ, pos, negsuc, to_int32,
}
use platform_packages_module.Config.{LoggingConfig, TaskConfig, int_of}
use Atoms.{MapKind, unsupported, is_supported, RecordOf, Atom, batch_atoms}

-- One turn of the loop, as the environment makes it: the clock when the time that remains is
-- computed, the records that the poll returns, and the clock at the end of the turn. The clock
-- counts nanoseconds from the start of the loop.
pub record Round (k : MapKind) : Type 0 where
  pub reading : ℕ
  pub batch : List (RecordOf k)
  pub finished : ℕ

-- `now - startTime < duration`, for a duration in seconds.
unfoldable pub before : ℕ → ℤ → Bool
before now (pos s) = ltb now (s * 10 ^ 9)
before now (negsuc s) = false

-- `timeoutMs`: the remaining nanoseconds in milliseconds, rounded to zero, as an `int`.
unfoldable pub timeout_ms : ℤ → ℕ → ℤ
timeout_ms (pos s) reading =
    if leb reading (s * 10 ^ 9)
    then to_int32 ((s * 10 ^ 9 - reading) / 10 ^ 6)
    else to_int32 (2 ^ 32 - (reading - s * 10 ^ 9) / 10 ^ 6 % 2 ^ 32)
timeout_ms (negsuc s) reading = to_int32 (2 ^ 32 - (reading + (s + 1) * 10 ^ 9) / 10 ^ 6 % 2 ^ 32)

-- How the loop stands: its time is over, its map path is not supported, or it waits for the
-- environment's next turn.
pub data Ending : Type 0 where
  timed_out unsupported_path waiting : Ending

pub record PollLog : Type 0 where
  pub ending : Ending
  pub timeouts : List ℤ
  pub atoms : List Atom

-- A turn's timeout and atoms, in front of what follows.
extend : ℤ → List Atom → PollLog → PollLog
extend timeout atoms log = record log {
  timeouts = timeout ∷ log.timeouts;
  atoms = atoms ++ log.atoms;
}

ended : Ending → Option PollLog
ended e = some (record { ending = e; timeouts = []; atoms = [] })

-- `doPoll` over the turns that the environment makes; `none` is undefined behaviour, a read outside
-- an array of registers.
unfoldable pub do_poll :
    (k : MapKind) (duration : ℤ) (logging : Option LoggingConfig) (now : ℕ)
    → List (Round k)
    → Option PollLog
unfolding extend ended
do_poll k duration logging now [] =
    if not (before now duration)
    then ended timed_out
    else if not (is_supported k)
    then ended unsupported_path
    else ended waiting
do_poll k duration logging now (r ∷ rs) =
    let rest = do_poll k duration logging r.finished rs in
    if not (before now duration)
    then ended timed_out
    else if not (is_supported k)
    then ended unsupported_path
    else elim (batch_atoms k logging r.batch) [
      | none ↦ none
      | some atoms ↦ elim rest [
        | none ↦ none
        | some log ↦ some (extend (timeout_ms duration r.reading) atoms log)
      ]
    ]
