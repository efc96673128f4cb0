-- ===== src/Port/Retry.antt =====
-- rust/src/config_resolver.rs: how the port asks for the offsets of a method until the service is
-- ready. The service, the clock and the error codes of the binder are given.
mod Laws
mod Tests
use platform_packages_module.Prelude.{
  ℕ, zero, suc, ◌+◌, ◌*◌, Option, none, some, Bool, true, false, not, leb, if◌then◌else◌, ℤ,
}
use platform_packages_module.Port.{Answer, ok, err}

pub record Service : Type 1 where
  pub World : Type 0
  pub Offsets : Type 0
  pub Status : Type 0
  -- `ExecutableMethodFileOffsets::get` for the process and the method in question.
  pub get : World → World × Answer Status (Option Offsets)
  -- `thread::sleep`, in milliseconds.
  pub sleep : World → ℕ → World
  -- Whether the code is SERVICE_SPECIFIC, and the specific error ILLEGAL_STATE.
  pub is_service_specific : Status → Bool
  pub is_illegal_state : Status → Bool

-- The messages of the errors, with the status that they show.
pub data Failure (S : Type 0) : Type 0 where
  failed_to_get : S → Failure S
  failed_after_retries : S → Failure S
  unexpected_status : S → Failure S
  unexpected_specific_error : S → Failure S

-- `MAX_RETRIES`
abbrev pub max_retries : ℕ
max_retries = 5

module _ (service : Service) where
  open service use {World, Offsets, Status, get, sleep, is_service_specific, is_illegal_state}

  abbrev pub Got : Type 0
  Got = World × Answer (Failure Status) (Option Offsets)

  -- The loop, on fuel.
  unfoldable pub retry_loop : (fuel : ℕ) → World → (retries backoff : ℕ) → Option Got
  retry_loop zero w retries backoff = none
  retry_loop (suc fuel) w retries backoff =
      let (w1, answer) = get w in
      elim answer [
        | ok offsets ↦ some (w1, ok offsets)
        | err status ↦
            let rest = retry_loop fuel (sleep w1 backoff) (suc retries) (backoff * 2) in
            if leb max_retries retries
            then some (w1, err (failed_after_retries status))
            else if not (is_service_specific status)
            then some (w1, err (unexpected_status status))
            else if not (is_illegal_state status)
            then some (w1, err (unexpected_specific_error status))
            else rest
      ]

  -- The answer with the error that is returned without the flag.
  unfoldable pub labelled :
      Answer Status (Option Offsets) → Answer (Failure Status) (Option Offsets)
  labelled (ok offsets) = ok offsets
  labelled (err status) = err (failed_to_get status)

  unfoldable pub get_executable_method_file_offsets_with_retry : Bool → World → Option Got
  get_executable_method_file_offsets_with_retry use_process_observer_api w =
      if not use_process_observer_api
      then some ((get w).0, labelled (get w).1)
      else retry_loop (max_retries + 1) w 0 10
