-- ===== src/Progs/Generic.antt =====
-- bpf_progs/GenericInstrumentation.c
pub mod Laws
use platform_packages_module.Prelude.{
  ℕ, zero, suc, ◌+◌, List, Option, none, some, ltb, if◌then◌else◌, length, get_or, set,
}
use platform_packages_module.Progs.Kernel.{Helpers, Outcome}
use platform_packages_module.Progs.Structs.{PtRegsX86Supported, CallTimestamp, CallResult}

-- An assignment to an array element; `none` is one past the array, which C does not define.
unfoldable pub assign : List ℕ → ℕ → ℕ → Option (List ℕ)
assign xs i v = if ltb i (length xs) then some (set xs i v) else none

-- The loop of `call_detail`: `rounds` more from index `i` on.
unfoldable pub copy_regs : (rounds i : ℕ) (src dest : List ℕ) → Option (List ℕ)
copy_regs zero i src dest = some dest
copy_regs (suc n) i src dest = elim (assign dest i (get_or src i 0)) [
  | none ↦ none
  | some d ↦ copy_regs n (i + 1) src d
]

-- `result` is the uninitialised local variable. `none` is undefined behaviour.
unfoldable pub call_detail :
    (result : CallResult) → PtRegsX86Supported → Option CallResult → Option (Outcome CallResult)
call_detail result ctx slot = elim (copy_regs 11 0 ctx.regs result.regs) [
  | none ↦ none
  | some r ↦ elim slot [
    | none ↦ some (record { ret = 1; submitted = none })
    | some output ↦ some (record { ret = 0; submitted = some (record { pc = ctx.pc; regs = r }) })
  ]
]

-- The body that the five `call_timestamp` programs share.
timestamp_of : ℕ → Helpers → Option CallTimestamp → Outcome CallTimestamp
timestamp_of event k none = record { ret = 1; submitted = none }
timestamp_of event k (some output) = record {
  ret = 0;
  submitted = some (record { event = event; timestamp_ns = k.ktime_get_ns });
}

pub call_timestamp_1 : Helpers → Option CallTimestamp → Outcome CallTimestamp
unfolding timestamp_of
call_timestamp_1 = timestamp_of 1

pub call_timestamp_2 : Helpers → Option CallTimestamp → Outcome CallTimestamp
unfolding timestamp_of
call_timestamp_2 = timestamp_of 2

pub call_timestamp_3 : Helpers → Option CallTimestamp → Outcome CallTimestamp
unfolding timestamp_of
call_timestamp_3 = timestamp_of 3

pub call_timestamp_4 : Helpers → Option CallTimestamp → Outcome CallTimestamp
unfolding timestamp_of
call_timestamp_4 = timestamp_of 4

pub call_timestamp_5 : Helpers → Option CallTimestamp → Outcome CallTimestamp
unfolding timestamp_of
call_timestamp_5 = timestamp_of 5
