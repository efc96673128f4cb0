-- ===== src/Progs/Process.antt =====
-- bpf_progs/ProcessManagement.c. A program is given the registers, and the slot that its ring
-- buffer reserves, with whatever bytes stood there before; `none` is a failed reservation.
pub mod Laws
use platform_packages_module.Prelude.{ℕ, ◌+◌, Option, none, some, not, ◌==◌, u32}
use platform_packages_module.Progs.Kernel.{Helpers, Outcome}
use platform_packages_module.Progs.Structs.{
  PtRegs, reg, SetUidTempAllowlistStateRecord, UpdateDeviceIdleTempAllowlistRecord, ProcessChange,
}
use platform_packages_module.Progs.Fns.{read_word, record_string, record_string_arg_from_sp}

unfoldable pub set_uid_temp_allowlist_state :
    PtRegs → Option SetUidTempAllowlistStateRecord → Outcome SetUidTempAllowlistStateRecord
set_uid_temp_allowlist_state ctx none = record { ret = 1; submitted = none }
set_uid_temp_allowlist_state ctx (some output) = record {
  ret = 0;
  submitted = some (record output { uid = reg ctx 2; on_allowlist = not (reg ctx 3 == 0) });
}

module _ (k : Helpers) where
  unfoldable pub update_device_idle_temp_allowlist :
      PtRegs
      → Option UpdateDeviceIdleTempAllowlistRecord
      → Outcome UpdateDeviceIdleTempAllowlistRecord
  update_device_idle_temp_allowlist ctx none = record { ret = 1; submitted = none }
  update_device_idle_temp_allowlist ctx (some output) = record {
    ret = 0;
    submitted = some (record {
      changing_uid = u32 (reg ctx 3);
      adding = not (reg ctx 4 == 0);
      duration_ms = reg ctx 5;
      type = u32 (reg ctx 6);
      reason_code = u32 (reg ctx 7);
      reason = record_string_arg_from_sp k ctx 256 40 output.reason;
      calling_uid = read_word k 4 (ctx.sp + 44);
    });
  }

  unfoldable pub set_pid : PtRegs → Option ProcessChange → Outcome ProcessChange
  set_pid ctx none = record { ret = 1; submitted = none }
  set_pid ctx (some output) = record {
    ret = 0;
    submitted = some (record {
      pid = u32 (reg ctx 2);
      uid = read_word k 4 (reg ctx 1 + 0xf4);
      process_name = record_string k (read_word k 4 (reg ctx 1 + 0xa0)) 256 output.process_name;
    });
  }

  unfoldable pub make_active : PtRegs → Option ProcessChange → Outcome ProcessChange
  make_active ctx none = record { ret = 1; submitted = none }
  make_active ctx (some output) = record {
    ret = 0;
    submitted = some (record {
      pid = read_word k 4 (reg ctx 1 + 0xe4);
      uid = read_word k 4 (reg ctx 1 + 0xf0);
      process_name = record_string k (read_word k 4 (reg ctx 1 + 0xa0)) 256 output.process_name;
    });
  }

  unfoldable pub on_process_active : PtRegs → Option ProcessChange → Outcome ProcessChange
  on_process_active ctx none = record { ret = 1; submitted = none }
  on_process_active ctx (some output) =
      let process_record_ptr = read_word k 4 (reg ctx 1 + 8) in
      let process_name = read_word k 4 (process_record_ptr + 52) in
      record {
        ret = 0;
        submitted = some (record {
          pid = read_word k 4 (process_record_ptr + 524);
          uid = read_word k 4 (process_record_ptr + 532);
          process_name = record_string k process_name 256 output.process_name;
        });
      }
