-- ===== src/Poll/Atoms.antt =====
-- UprobeStats.cpp, `doPoll`: the kinds of ring buffer, by their path, and the atom for a record.
use platform_packages_module.Prelude.{
  ℕ, ◌+◌, ◌-◌, ◌%◌, ◌^◌, List, [], ◌∷◌, Option, none, some, Bool, true, false, if◌then◌else◌, ltb,
  get_elem?, Text, codes, contains, ℤ, pos, negsuc, to_int32,
}
use platform_packages_module.Config.{LoggingConfig, int_of}
use platform_packages_module.Progs.Structs.{
  CallResult, CallTimestamp, UpdateDeviceIdleTempAllowlistRecord, SetUidTempAllowlistStateRecord,
}
use platform_packages_module.Progs.Fns.Laws.{c_string}

pub data MapKind : Type 0 where
  generic_detail generic_timestamp idle_allowlist process_management unsupported : MapKind

abbrev pub is_supported : MapKind → Bool
is_supported unsupported = false
is_supported _ = true

-- The tests of the loop, in their order.
unfoldable pub kind_of : Text → MapKind
kind_of path =
    if contains path (codes "GenericInstrumentation_call_detail")
    then generic_detail
    else if contains path (codes "GenericInstrumentation_call_timestamp")
    then generic_timestamp
    else if contains path (codes "ProcessManagement_update_device_idle_temp_allowlist_records")
    then idle_allowlist
    else if contains path (codes "ProcessManagement_output_buf")
    then process_management
    else unsupported

-- The records that are polled from a ring buffer.
abbrev pub RecordOf : MapKind → Type 0
RecordOf generic_detail = CallResult
RecordOf generic_timestamp = CallTimestamp
RecordOf idle_allowlist = UpdateDeviceIdleTempAllowlistRecord
RecordOf process_management = SetUidTempAllowlistStateRecord
RecordOf unsupported = ⊥

pub data Field : Type 0 where
  int32 : ℤ → Field
  int64 : ℤ → Field
  bool : Bool → Field
  string : Text → Field

-- An `AStatsEvent` as it is written.
pub record Atom : Type 0 where
  pub atom_id : ℤ
  pub fields : List Field

-- A 64-bit integer as an `int`.
abbrev pub narrow : ℤ → ℤ
narrow (pos n) = to_int32 n
narrow (negsuc n) = to_int32 (2 ^ 32 - 1 - n % 2 ^ 32)

-- The `int64_t` that a 64-bit word stands for.
abbrev pub to_int64 : ℕ → ℤ
to_int64 w =
    if ltb (w % 2 ^ 64) (2 ^ 63) then pos (w % 2 ^ 64) else negsuc (2 ^ 64 - w % 2 ^ 64 - 1)

-- `value.regs[position + kJavaArgumentRegisterOffset]`; `none` is outside the array.
unfoldable pub argument_at : List ℕ → ℤ → Option ℕ
argument_at regs (pos p) = get_elem? regs (p + 2)
argument_at regs (negsuc n) = if ltb n 2 then get_elem? regs (1 - n) else none

unfoldable pub argument_fields : List ℕ → List ℤ → Option (List Field)
argument_fields regs [] = some []
argument_fields regs (p ∷ ps) = elim (argument_at regs p) [
  | none ↦ none
  | some v ↦ elim (argument_fields regs ps) [
    | none ↦ none
    | some fs ↦ some (int32 (to_int32 v) ∷ fs)
  ]
]

atom : LoggingConfig → List Field → Atom
atom c fields = record { atom_id = narrow (int_of c.atom_id); fields = fields }

-- The atom for a record; `none` is undefined behaviour.
unfoldable pub atom_of : (k : MapKind) → LoggingConfig → RecordOf k → Option Atom
unfolding atom
atom_of generic_detail c v = elim (argument_fields v.regs c.primitive_argument_positions) [
  | none ↦ none
  | some fields ↦ some (atom c fields)
]
atom_of generic_timestamp c v =
    some (atom c (int32 (to_int32 v.event) ∷ int64 (to_int64 v.timestamp_ns) ∷ []))
atom_of idle_allowlist c v = some (
    atom c (
      int32 (to_int32 v.changing_uid)
      ∷ bool v.adding
      ∷ int64 (to_int64 v.duration_ms)
      ∷ int32 (to_int32 v.type)
      ∷ int32 (to_int32 v.reason_code)
      ∷ string (c_string v.reason)
      ∷ int32 (to_int32 v.calling_uid)
      ∷ []))
atom_of process_management c v = some (atom c (int32 (to_int32 v.uid) ∷ bool v.on_allowlist ∷ []))
atom_of unsupported c v = absurd v

-- The atoms for what a poll returned, none of them without a logging configuration.
unfoldable pub batch_atoms :
    (k : MapKind) → Option LoggingConfig → List (RecordOf k) → Option (List Atom)
batch_atoms k none vs = some []
batch_atoms k (some c) [] = some []
batch_atoms k (some c) (v ∷ vs) = elim (atom_of k c v) [
  | none ↦ none
  | some a ↦ elim (batch_atoms k (some c) vs) [ none ↦ none | some rest ↦ some (a ∷ rest) ]
]
