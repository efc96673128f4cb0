-- ===== src/Poll/Tests.antt =====
-- A polling thread over sample turns, and the theorems at them.
use platform_packages_module.Prelude.{
  ℕ, ◌⊎◌, ◌≤◌, ◌<◌, ◌*◌, ◌-◌, ◌/◌, ◌+◌, ◌^◌, ◌≡◌, refl, inl, inr, List, [], ◌∷◌, none, some, true,
  arith, replicate, codes, pos, is_negative,
}
use platform_packages_module.Config.{LoggingConfig}
use platform_packages_module.Progs.Structs.{CallResult, SetUidTempAllowlistStateRecord}
use platform_packages_module.Poll.{Round, before, timeout_ms, timed_out, PollLog, do_poll}
use platform_packages_module.Poll.Atoms.{
  generic_detail, process_management, unsupported, kind_of, int32, bool, atom_of, batch_atoms,
}
use platform_packages_module.Poll.Time.{EndsInTime, do_poll-EndsInTime}
use platform_packages_module.Poll.Laws.{timeout_ms_lem, atom_of-outside}

kind_runs :
    (kind_of (codes "/sys/fs/bpf/uprobestats/map_ProcessManagement_output_buf")
      ≡ process_management)
    × (kind_of (codes "/sys/fs/bpf/uprobestats/map_MalwareSignal_output_buf") ≡ unsupported)
unfolding kind_of
kind_runs = (refl, refl)

abbrev logging : LoggingConfig
logging = record { atom_id = some (pos 1078); primitive_argument_positions = pos 1 ∷ pos 8 ∷ [] }

timeout_ms_lem_example :
    ((3_001_000_000 ≤ 3 * 10 ^ 9)
      × (timeout_ms (pos 3) 3_001_000_000 ≡ pos ((3 * 10 ^ 9 - 3_001_000_000) / 10 ^ 6)))
    ⊎ (((3 * 10 ^ 9 < 3_001_000_000)
          × (3_001_000_000 < 3 * 10 ^ 9 + 10 ^ 6)
          × (timeout_ms (pos 3) 3_001_000_000 ≡ pos 0))
        ⊎ ((3 * 10 ^ 9 + 10 ^ 6 ≤ 3_001_000_000)
            × (is_negative (timeout_ms (pos 3) 3_001_000_000) ≡ true)))
timeout_ms_lem_example = timeout_ms_lem 3 3_001_000_000 (omega arith) (omega arith)

abbrev call : CallResult
call = record { pc = 1; regs = replicate 10 5 }

atom_of-outside_example : atom_of generic_detail logging call ≡ none
atom_of-outside_example = atom_of-outside logging call refl (inr (inl (omega arith)))

abbrev state_record : SetUidTempAllowlistStateRecord
state_record = record { uid = 10_001; on_allowlist = true }

abbrev round : ℕ → Round process_management
round t = record { reading = t; batch = state_record ∷ []; finished = t + 10 ^ 9 }

abbrev rounds : List (Round process_management)
rounds = round 0 ∷ round (10 ^ 9) ∷ []

do_poll_runs :
    do_poll process_management (pos 2) (some logging) 0 rounds
    ≡ some (record {
      ending = timed_out;
      timeouts = pos 2000 ∷ pos 1000 ∷ [];
      atoms =
          record { atom_id = pos 1078; fields = int32 (pos 10_001) ∷ bool true ∷ [] }
          ∷ record { atom_id = pos 1078; fields = int32 (pos 10_001) ∷ bool true ∷ [] }
          ∷ [];
    })
unfolding do_poll before timeout_ms batch_atoms atom_of
do_poll_runs = refl

do_poll-EndsInTime_example : EndsInTime process_management (some logging) 2 (10 ^ 9) 0 0 rounds
unfolding batch_atoms atom_of timeout_ms
do_poll-EndsInTime_example =
    do_poll-EndsInTime process_management (some logging) 2 (10 ^ 9) 0 rounds refl (refl, (refl, tt))
      (omega arith)
      (
        inr (omega arith, omega arith, omega arith),
        (inr (omega arith, omega arith, omega arith), tt),
      )
      (omega arith)

abbrev quiet_log : PollLog
quiet_log = record { ending = timed_out; timeouts = pos 2000 ∷ pos 1000 ∷ []; atoms = [] }
