-- ===== src/Progs/Process/Laws.antt =====
-- What the programs of bpf_progs/ProcessManagement.c submit, whatever the probed process holds.
use platform_packages_module.Prelude.{
  ℕ, ◌+◌, ◌^◌, ◌<◌, ◌≡◌, refl, Option, some, not, arith, length, u32, ◌==◌,
}
use platform_packages_module.Progs.Kernel.{Helpers, IsDocumented, Outcome, Submits}
use platform_packages_module.Progs.Structs.{
  PtRegs, reg, UpdateDeviceIdleTempAllowlistRecord, ProcessChange,
}
use platform_packages_module.Progs.Fns.{read_word, record_string_arg_from_sp}
use platform_packages_module.Progs.Fns.Laws.{IsRecorded, read_word-lt, record_string-IsRecorded}
use platform_packages_module.Progs.Process.{
  update_device_idle_temp_allowlist, set_pid, make_active, on_process_active,
}

-- The three programs that submit a `ProcessChange`.
pub data ProcessProgram : Type 0 where
  at_set_pid at_make_active at_on_process_active : ProcessProgram

module _ (k : Helpers) where
  pub run_process : ProcessProgram → PtRegs → Option ProcessChange → Outcome ProcessChange
  run_process at_set_pid = set_pid k
  run_process at_make_active = make_active k
  run_process at_on_process_active = on_process_active k

  -- Where each program finds the address of the process name.
  pub name_address : ProcessProgram → PtRegs → ℕ
  name_address at_set_pid ctx = read_word k 4 (reg ctx 1 + 0xa0)
  name_address at_make_active ctx = read_word k 4 (reg ctx 1 + 0xa0)
  name_address at_on_process_active ctx = read_word k 4 (read_word k 4 (reg ctx 1 + 8) + 52)

-- A `ProcessChange` whose numbers are 32 bits wide and whose name was recorded from an address.
pub record IsProcessChange (k : Helpers) (jstring : ℕ) (slot o : ProcessChange) : Type 0 where
  pub pid_lt : o.pid < 2 ^ 32
  pub uid_lt : o.uid < 2 ^ 32
  pub name : IsRecorded k jstring 256 slot.process_name o.process_name

module _ {k : Helpers} (doc : IsDocumented k) (ctx : PtRegs) where
  -- Each of `set_pid`, `make_active` and `on_process_active` returns 0 and submits a record whose pid
  -- and uid are 32-bit numbers and whose name array is filled within its bounds with the text at the
  -- program's name address, if the reserved slot has a name array of 256 bytes.
  pub run_process-IsProcessChange :
      (p : ProcessProgram) (slot : ProcessChange)
      → length slot.process_name ≡ 256
      → Submits (run_process k p ctx (some slot)) (IsProcessChange k (name_address k p ctx) slot)
  unfolding run_process name_address set_pid make_active on_process_active
  run_process-IsProcessChange at_set_pid slot h = (
    refl,
    record {
      pid_lt = omega arith;
      uid_lt = read_word-lt doc _;
      name = record_string-IsRecorded doc _ 256 _ (omega arith) (omega arith);
    },
  )
  run_process-IsProcessChange at_make_active slot h = (
    refl,
    record {
      pid_lt = read_word-lt doc _;
      uid_lt = read_word-lt doc _;
      name = record_string-IsRecorded doc _ 256 _ (omega arith) (omega arith);
    },
  )
  run_process-IsProcessChange at_on_process_active slot h = (
    refl,
    record {
      pid_lt = read_word-lt doc _;
      uid_lt = read_word-lt doc _;
      name = record_string-IsRecorded doc _ 256 _ (omega arith) (omega arith);
    },
  )

  -- `update_device_idle_temp_allowlist` returns 0 and submits the arguments of the probed call: the
  -- registers 3 to 7, narrowed to their fields, the text of the string at stack offset 40, recorded
  -- within the 256 byte array of the slot, and a 32-bit calling uid.
  update_device_idle-record :
      (slot : UpdateDeviceIdleTempAllowlistRecord)
      → length slot.reason ≡ 256
      → Submits (update_device_idle_temp_allowlist k ctx (some slot)) (λ o.
        (o.changing_uid ≡ u32 (reg ctx 3))
        × (o.adding ≡ not (reg ctx 4 == 0))
        × (o.duration_ms ≡ reg ctx 5)
        × (o.type ≡ u32 (reg ctx 6))
        × (o.reason_code ≡ u32 (reg ctx 7))
        × IsRecorded k (read_word k 4 (ctx.sp + 40)) 256 slot.reason o.reason
        × (o.calling_uid < 2 ^ 32))
  unfolding update_device_idle_temp_allowlist record_string_arg_from_sp
  update_device_idle-record slot h = (
    refl,
    (
      refl,
      refl,
      refl,
      refl,
      refl,
      record_string-IsRecorded doc _ 256 _ (omega arith) (omega arith),
      read_word-lt doc _,
    ),
  )
