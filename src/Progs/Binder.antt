-- ===== src/Progs/Binder.antt =====
-- bpf_progs/Binder.c. The map `interfaces`, from an interface descriptor to ten transaction codes,
-- is a parameter: user space fills it.
pub mod Laws
use platform_packages_module.Prelude.{
  ℕ, zero, suc, ◌+◌, List, Option, none, some, not, ◌==◌, if◌then◌else◌, get_or, replicate, u32,
}
use platform_packages_module.Progs.Kernel.{Helpers, Outcome}
use platform_packages_module.Progs.Structs.{max_string_length, PtRegs, reg, BinderTransaction}
use platform_packages_module.Progs.Fns.{store, read_word, record_string}

abbrev pub binder_descriptor_offset : ℕ
binder_descriptor_offset = 8

-- The loop over the codes from index `i` on; `hit` is what the body does at a match.
unfoldable pub scan_codes :
    (rounds i : ℕ) (codes : List ℕ) (wanted : ℕ)
    → Outcome BinderTransaction
    → Outcome BinderTransaction
scan_codes zero i codes wanted hit = record { ret = 0; submitted = none }
scan_codes (suc n) i codes wanted hit =
    let rest = scan_codes n (i + 1) codes wanted hit in
    if get_or codes i 0 == 0
    then record { ret = 0; submitted = none }
    else if not (get_or codes i 0 == wanted)
    then rest
    else hit

module _ (k : Helpers) where
  -- The lookup key: the descriptor of the binder object.
  unfoldable pub descriptor_key : PtRegs → List ℕ
  descriptor_key ctx =
      record_string k (read_word k 4 (reg ctx 1 + binder_descriptor_offset)) max_string_length
        (replicate max_string_length 0)

  -- The reservation, and what is submitted if it succeeds.
  unfoldable pub report_transaction :
      PtRegs → List ℕ → Option BinderTransaction → Outcome BinderTransaction
  report_transaction ctx key none = record { ret = 1; submitted = none }
  report_transaction ctx key (some output) = record {
    ret = 0;
    submitted = some (record {
      interface_descriptor = store output.interface_descriptor key;
      code = reg ctx 2;
      calling_uid = u32 (reg ctx 6);
      timestamp_ns = k.ktime_get_ns;
    });
  }

  unfoldable pub exec_transact_internal :
      (interfaces : List ℕ → Option (List ℕ))
      → PtRegs
      → Option BinderTransaction
      → Outcome BinderTransaction
  exec_transact_internal interfaces ctx slot = elim (interfaces (descriptor_key ctx)) [
    | none ↦ record { ret = 0; submitted = none }
    | some codes ↦
        scan_codes 10 0 codes (reg ctx 2) (report_transaction ctx (descriptor_key ctx) slot)
  ]
