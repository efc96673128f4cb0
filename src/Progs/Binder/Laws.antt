-- ===== src/Progs/Binder/Laws.antt =====
-- Which binder transactions are reported.
use platform_packages_module.Prelude.{
  ◌⊎◌, inl, inr, ℕ, zero, suc, ◌+◌, ◌≤◌, ◌<◌, ◌≡◌, ◌≢◌, refl, ap, ◌∙◌, List, Option, none, some,
  arith, get_or,
}
use native.Mathlib.Decide.{ℕ_discrete}
use platform_packages_module.Progs.Kernel.{Helpers, Outcome}
use platform_packages_module.Progs.Structs.{PtRegs, reg, BinderTransaction}
use platform_packages_module.Progs.Binder.{
  scan_codes, descriptor_key, report_transaction, exec_transact_internal,
}

-- The code stands at some index from `i` on, below `i + n`, with no zero from `i` up to it.
pub record IsListed (n i : ℕ) (codes : List ℕ) (code : ℕ) : Type 0 where
  pub index : ℕ
  pub from : i ≤ index
  pub below : index < i + n
  pub found : get_or codes index 0 ≡ code
  pub no_zero : (j : ℕ) → i ≤ j → j ≤ index → get_or codes j 0 ≢ 0

-- A listing that does not start with the code goes on after the first index.
IsListed-tail :
    {n i : ℕ} {codes : List ℕ} {code : ℕ}
    → IsListed (suc n) i codes code
    → get_or codes i 0 ≢ code
    → IsListed n (i + 1) codes code
IsListed-tail {i} {codes} l other = record {
  index = l.index;
  from = later;
  below = omega (arith, l.below);
  found = l.found;
  no_zero = λ j h. l.no_zero j (omega arith);
}
  where
    apart : i ≢ l.index
    apart e = other (ap (λ k. get_or codes k 0) e ∙ l.found)

    later : i + 1 ≤ l.index
    later = omega (arith, apart, l.from)

-- A listing from the next index is one from this index, unless a zero stands there.
IsListed-cons :
    {n i : ℕ} {codes : List ℕ} {code : ℕ}
    → IsListed n (i + 1) codes code
    → get_or codes i 0 ≢ 0
    → IsListed (suc n) i codes code
IsListed-cons {i} {codes} l ne = record {
  index = l.index;
  from = omega (arith, l.from);
  below = omega (arith, l.below);
  found = l.found;
  no_zero =
      λ j h p. elim (ℕ_discrete i j) [ yes e ↦ rw (← e) ne | no o ↦ l.no_zero j (omega arith) p ];
}

index_only : (i j : ℕ) → i ≤ j → j ≤ i → j ≡ i
index_only i j h p = omega (arith, h, p)

IsListed-cases :
    (n i : ℕ) (codes : List ℕ) (code : ℕ) → IsListed n i codes code ⊎ (¬ IsListed n i codes code)
IsListed-cases zero i codes code = inr (λ l. absurd (omega (arith, l.from, l.below)))
IsListed-cases (suc n) i codes code = elim (ℕ_discrete (get_or codes i 0) 0) [
  | yes z ↦ inr (λ l. l.no_zero i (omega arith) l.from z)
  | no ne ↦ elim (ℕ_discrete (get_or codes i 0) code) [
    | yes same ↦ inl (record {
      index = i;
      from = omega arith;
      below = omega arith;
      found = same;
      no_zero = λ j h p. rw (index_only i j h p) ne;
    })
    | no other ↦ elim (IsListed-cases n (i + 1) codes code) [
      | inl l ↦ inl (IsListed-cons l ne)
      | inr none_left ↦ inr (λ l. none_left (IsListed-tail l other))
    ]
  ]
]

module _ (codes : List ℕ) (code : ℕ) (hit : Outcome BinderTransaction) where
  scan_codes-hit : (n i : ℕ) → IsListed n i codes code → scan_codes n i codes code hit ≡ hit
  unfolding scan_codes
  scan_codes-hit zero i l = absurd (omega (arith, l.from, l.below))
  scan_codes-hit (suc n) i l = elim (ℕ_discrete (get_or codes i 0) code) [
    | yes same ↦ ground (arith, l.no_zero i (omega arith) l.from)
    | no other ↦
        ground (
          arith,
          l.no_zero i (omega arith) l.from,
          scan_codes-hit n (i + 1) (IsListed-tail l other),
        )
  ]

  scan_codes-miss :
      (n i : ℕ)
      → ¬ IsListed n i codes code
      → scan_codes n i codes code hit ≡ record { ret = 0; submitted = none }
  unfolding scan_codes
  scan_codes-miss zero i l = refl
  scan_codes-miss (suc n) i l = elim (ℕ_discrete (get_or codes i 0) 0) [
    | yes stop ↦ ground arith
    | no ne ↦ elim (ℕ_discrete (get_or codes i 0) code) [
      | yes same ↦ absurd (l (here same ne))
      | no other ↦ ground (arith, scan_codes-miss n (i + 1) (λ r. l (IsListed-cons r ne)))
    ]
  ]
    where
      here : get_or codes i 0 ≡ code → get_or codes i 0 ≢ 0 → IsListed (suc n) i codes code
      here same ne = record {
        index = i;
        from = omega arith;
        below = omega arith;
        found = same;
        no_zero = λ j h p. let e : i ≡ j = omega arith in rw (← e) ne;
      }

module _ (k : Helpers) (interfaces : List ℕ → Option (List ℕ)) (ctx : PtRegs)
    (slot : Option BinderTransaction) {codes : List ℕ}
    (registered : interfaces (descriptor_key k ctx) ≡ some codes) where
  -- A transaction whose code is listed, before the first zero, among the ten codes registered for
  -- its interface is reported: the program does what the reservation and submission do.
  pub exec_transact-reports :
      IsListed 10 0 codes (reg ctx 2)
      → exec_transact_internal k interfaces ctx slot
        ≡ report_transaction k ctx (descriptor_key k ctx) slot
  unfolding exec_transact_internal
  exec_transact-reports l =
      rw (registered, exec_transact_internal) (scan_codes-hit codes (reg ctx 2) _ 10 0 l)

  -- A transaction whose code is not listed, before the first zero, among the ten codes registered
  -- for its interface is passed over: the program returns 0 and submits nothing.
  pub exec_transact-ignores :
      ¬ IsListed 10 0 codes (reg ctx 2)
      → exec_transact_internal k interfaces ctx slot ≡ record { ret = 0; submitted = none }
  unfolding exec_transact_internal
  exec_transact-ignores l =
      rw (registered, exec_transact_internal) (scan_codes-miss codes (reg ctx 2) _ 10 0 l)

  -- Every transaction of a registered interface: if its code is listed, before the first zero, among
  -- the ten codes of the interface, it is reported, as the reservation and submission do; else the
  -- program returns 0 and submits nothing.
  pub exec_transact_internal_lem :
      (IsListed 10 0 codes (reg ctx 2)
        × (exec_transact_internal k interfaces ctx slot
            ≡ report_transaction k ctx (descriptor_key k ctx) slot))
      ⊎ ((¬ IsListed 10 0 codes (reg ctx 2))
          × (exec_transact_internal k interfaces ctx slot ≡ record { ret = 0; submitted = none }))
  exec_transact_internal_lem = elim (IsListed-cases 10 0 codes (reg ctx 2)) [
    | inl l ↦ inl (l, exec_transact-reports l)
    | inr l ↦ inr (l, exec_transact-ignores l)
  ]
