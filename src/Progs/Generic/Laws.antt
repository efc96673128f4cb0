-- ===== src/Progs/Generic/Laws.antt =====
-- The loop of `call_detail` against the array that it fills, and the `call_timestamp` programs.
use platform_packages_module.Prelude.{
  ℕ, zero, suc, ◌+◌, ◌≤◌, ◌<◌, ◌≡◌, refl, List, [], ◌∷◌, Option, none, some, arith, ltb, leb, ◌==◌,
  ◌&&◌, if◌then◌else◌, length, get_or, set,
}
use platform_packages_module.Progs.Kernel.{Helpers, Outcome}
use platform_packages_module.Progs.Structs.{PtRegsX86Supported, CallTimestamp, CallResult}
use platform_packages_module.Progs.Generic.{
  assign, copy_regs, call_detail, call_timestamp_1, call_timestamp_2, call_timestamp_3,
  call_timestamp_4, call_timestamp_5,
}

length-set : (xs : List ℕ) (i v : ℕ) → length (set xs i v) ≡ length xs
length-set [] i v = refl
length-set (x ∷ xs) zero v = refl
length-set (x ∷ xs) (suc i) v = omega (arith, length-set xs i v)

get_or-set :
    (xs : List ℕ) (i j v : ℕ)
    → i < length xs
    → get_or (set xs i v) j 0 ≡ (if i == j then v else get_or xs j 0)
get_or-set [] i j v h = absurd (omega arith)
get_or-set (x ∷ xs) zero zero v h = refl
get_or-set (x ∷ xs) zero (suc j) v h = ground arith
get_or-set (x ∷ xs) (suc i) zero v h = ground arith
get_or-set (x ∷ xs) (suc i) (suc j) v h = ground (arith, get_or-set xs i j v)

-- The elements from `i` to `i + n` are those of `src`, and the others are as they were.
pub record IsCopied (n i : ℕ) (src dest out : List ℕ) : Type 0 where
  pub size : length out ≡ length dest
  pub elements :
      (j : ℕ)
      → get_or out j 0 ≡ (if leb i j && ltb j (i + n) then get_or src j 0 else get_or dest j 0)

copy_regs-IsCopied :
    (n i : ℕ) (src dest : List ℕ)
    → i + n ≤ length dest
    → (out : List ℕ) × (copy_regs n i src dest ≡ some out) × IsCopied n i src dest out
unfolding copy_regs assign
copy_regs-IsCopied zero i src dest h =
    (dest, refl, record { size = refl; elements = λ j. ground arith })
copy_regs-IsCopied (suc n) i src dest h =
    let v = get_or src i 0 in
    let (out, e, c) =
      copy_regs-IsCopied n (i + 1) src (set dest i v) (omega (arith, length-set dest i v)) in
    (
      out,
      ground arith,
      record {
        size = omega (arith, c.size, length-set dest i v);
        elements = λ j. ground (arith, c.elements j, get_or-set dest i j v);
      },
    )

copy_regs_overrun :
    (n i : ℕ) (src dest : List ℕ)
    → i ≤ length dest
    → length dest < i + n
    → copy_regs n i src dest ≡ none
unfolding copy_regs assign
copy_regs_overrun zero i src dest h o = absurd (omega arith)
copy_regs_overrun (suc n) i src dest h o = ground (
  arith,
  length-set dest i (get_or src i 0),
  copy_regs_overrun n (i + 1) src (set dest i (get_or src i 0)),
)

-- The copying loop of `call_detail`, run for a number of rounds that is at most the array's
-- elements, is defined: it copies that many registers and leaves the rest of the array as it was.
pub copy_regs_lem :
    (n : ℕ) (src dest : List ℕ)
    → n ≤ length dest
    → (out : List ℕ) × (copy_regs n 0 src dest ≡ some out) × IsCopied n 0 src dest out
copy_regs_lem n src dest h = copy_regs-IsCopied n 0 src dest (omega arith)

-- `call_detail` writes outside `regs`, which has ten elements, at every probe hit: its eleven
-- rounds have no defined outcome, for any registers and whether or not a slot is reserved.
pub call_detail_overruns :
    (result : CallResult) (ctx : PtRegsX86Supported) (slot : Option CallResult)
    → length result.regs ≡ 10
    → call_detail result ctx slot ≡ none
unfolding call_detail
call_detail_overruns result ctx slot e = ground (arith, copy_regs_overrun 11 0 ctx.regs result.regs)

-- What a timestamp program with a number is meant to do.
abbrev pub timestamp_reply : ℕ → Helpers → Option CallTimestamp → Outcome CallTimestamp
timestamp_reply n k none = record { ret = 1; submitted = none }
timestamp_reply n k (some _) = record {
  ret = 0;
  submitted = some (record { event = n; timestamp_ns = k.ktime_get_ns });
}

-- Each of the five timestamp programs returns 1 and submits nothing if the reservation fails;
-- otherwise it returns 0 and submits the kernel's time under its own number.
pub call_timestamp_lem :
    (k : Helpers) (slot : Option CallTimestamp)
    → (call_timestamp_1 k slot ≡ timestamp_reply 1 k slot)
      × (call_timestamp_2 k slot ≡ timestamp_reply 2 k slot)
      × (call_timestamp_3 k slot ≡ timestamp_reply 3 k slot)
      × (call_timestamp_4 k slot ≡ timestamp_reply 4 k slot)
      × (call_timestamp_5 k slot ≡ timestamp_reply 5 k slot)
unfolding call_timestamp_1 call_timestamp_2 call_timestamp_3 call_timestamp_4 call_timestamp_5
call_timestamp_lem k none = (refl, refl, refl, refl, refl)
call_timestamp_lem k (some s) = (refl, refl, refl, refl, refl)
