-- ===== src/Progs/Structs.antt =====
-- uprobestats_bpf_structs.h: the registers at a probe, and the records that the programs submit.
-- `int` and `__u32` fields hold 32-bit patterns, `long` fields 64-bit patterns, and a `char` array
-- the list of its bytes.
use platform_packages_module.Prelude.{ℕ, Bool, List, get_or}

abbrev pub max_string_length : ℕ
max_string_length = 128

-- `struct pt_regs`, as far as the programs read it.
pub record PtRegs : Type 0 where
  pub regs : List ℕ
  pub sp : ℕ

abbrev pub reg : PtRegs → ℕ → ℕ
reg ctx i = get_or ctx.regs i 0

-- `struct pt_regs_x86_supported`, as far as the programs read it: 16 registers and `pc`.
pub record PtRegsX86Supported : Type 0 where
  pub regs : List ℕ
  pub pc : ℕ

pub record CallTimestamp : Type 0 where
  pub event : ℕ
  pub timestamp_ns : ℕ

pub record CallResult : Type 0 where
  pub pc : ℕ
  pub regs : List ℕ

pub record SetUidTempAllowlistStateRecord : Type 0 where
  pub uid : ℕ
  pub on_allowlist : Bool

pub record UpdateDeviceIdleTempAllowlistRecord : Type 0 where
  pub changing_uid : ℕ
  pub adding : Bool
  pub duration_ms : ℕ
  pub type : ℕ
  pub reason_code : ℕ
  pub reason : List ℕ
  pub calling_uid : ℕ

pub record BindServiceLocked : Type 0 where
  pub intent_action : List ℕ
  pub intent_package : List ℕ
  pub intent_component_name_package : List ℕ
  pub intent_component_name_class : List ℕ
  pub bind_flags : ℕ
  pub calling_package : List ℕ

pub record ComponentEnabledSetting : Type 0 where
  pub package_name : List ℕ
  pub class_name : List ℕ
  pub new_state : ℕ
  pub calling_package_name : List ℕ

pub record ProcessChange : Type 0 where
  pub pid : ℕ
  pub uid : ℕ
  pub process_name : List ℕ

pub record BitmapAllocation : Type 0 where
  pub type : ℕ
  pub width : ℕ
  pub height : ℕ
  pub pixel_storage_type : ℕ
  pub bitmap_size : ℕ
  pub native_ptr : ℕ
  pub activity_name : List ℕ

pub record BinderTransaction : Type 0 where
  pub interface_descriptor : List ℕ
  pub code : ℕ
  pub calling_uid : ℕ
  pub timestamp_ns : ℕ
