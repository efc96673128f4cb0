-- ===== src/Port/Retry/Laws.antt =====
-- Which attempt the answer of the loop comes from.
use native.Mathlib.Nat.{two-pow-succ}
use platform_packages_module.Prelude.{
  ℕ, zero, suc, ◌+◌, ◌*◌, ◌^◌, ◌≤◌, ◌≡◌, ◌⊎◌, inl, inr, refl, sym, subst, false≢true, Option, some,
  true, false, leb, arith, Bool-cases,
}
use platform_packages_module.Port.{Answer, ok, err}
use platform_packages_module.Port.Retry.{
  Service, Failure, failed_after_retries, unexpected_status, unexpected_specific_error, max_retries,
  Got, retry_loop, get_executable_method_file_offsets_with_retry,
}

module _ (service : Service) where
  open service use {World, Offsets, Status, get, sleep, is_service_specific, is_illegal_state}

  -- The service is not ready yet: the one error that passes.
  abbrev pub IsPassing : Answer Status (Option Offsets) → Type 0
  IsPassing answer =
      (status : Status) × (answer ≡ err status)
      × (is_service_specific status ≡ true)
      × (is_illegal_state status ≡ true)

  -- The state before attempt `k + n`, from the state before attempt `k`: the pause after attempt `k`
  -- has 10 * 2 ^ k milliseconds.
  abbrev pub before : (k n : ℕ) → World → World
  before k zero w = w
  before k (suc n) w = before (suc k) n (sleep (get w).0 (10 * 2 ^ k))

  -- The attempts from `k` to `k + n - 1` find that the service is not ready.
  abbrev pub AllPassing : (k n : ℕ) → World → Type 0
  AllPassing k zero w = Unit
  AllPassing k (suc n) w = IsPassing (get w).1 × AllPassing (suc k) n (sleep (get w).0 (10 * 2 ^ k))

  -- What the caller gets for the last attempt.
  abbrev pub IsVerdict :
      (attempt : ℕ) (answer : Answer Status (Option Offsets))
      (given : Answer (Failure Status) (Option Offsets))
      → Type 0
  IsVerdict attempt (ok offsets) given = given ≡ ok offsets
  IsVerdict attempt (err status) given =
      ((attempt ≡ max_retries) × (given ≡ err (failed_after_retries status)))
      ⊎ (((is_service_specific status ≡ false) × (given ≡ err (unexpected_status status)))
          ⊎ ((is_service_specific status ≡ true)
              × (is_illegal_state status ≡ false)
              × (given ≡ err (unexpected_specific_error status))))

  abbrev pub Ends : (k : ℕ) (w : World) (result : Option (Got service)) → Type 0
  Ends k w result =
      (n : ℕ) × (given : Answer (Failure Status) (Option Offsets)) × (k + n ≤ max_retries)
      × AllPassing k n w
      × IsVerdict (k + n) (get (before k n w)).1 given
      × (result ≡ some ((get (before k n w)).0, given))

  Answer-cases :
      (answer : Answer Status (Option Offsets))
      → ((offsets : Option Offsets) × (answer ≡ ok offsets))
        ⊎ ((status : Status) × (answer ≡ err status))
  Answer-cases (ok offsets) = inl (offsets, refl)
  Answer-cases (err status) = inr (status, refl)

  -- One more attempt before the others.
  one_more :
      (k : ℕ) (w : World) (result : Option (Got service))
      → IsPassing (get w).1
      → Ends (suc k) (sleep (get w).0 (10 * 2 ^ k)) result
      → Ends k w result
  one_more k w result passing (n, given, bound, all, verdict, e) =
      let last = get (before (suc k) n (sleep (get w).0 (10 * 2 ^ k))) in
      let same : suc k + n ≡ k + suc n = omega arith in
      (
        suc n,
        given,
        omega (arith, bound),
        (passing, all),
        subst (λ attempt. IsVerdict attempt last.1 given) same verdict,
        e,
      )

  -- An error that ends the loop.
  fails :
      (k : ℕ) (w : World) (status : Status) (given : Answer (Failure Status) (Option Offsets))
      → k ≤ max_retries
      → (get w).1 ≡ err status
      → IsVerdict k (err status) given
      → Ends k w (some ((get w).0, given))
  fails k w status given bound e verdict =
      let same : k ≡ k + 0 = omega arith in
      (
        0,
        given,
        omega (arith, bound),
        tt,
        subst (λ a. IsVerdict (k + 0) a given) (sym e)
            (subst (λ attempt. IsVerdict attempt (err status) given) same verdict),
        refl,
      )

  -- One round of the loop, before others if it is not the last.
  one_round :
      (fuel k : ℕ) (w : World)
      → fuel + k ≡ max_retries
      → (leb max_retries k ≡ false
          → Ends
              (suc k)
              (sleep (get w).0 (10 * 2 ^ k))
              (retry_loop service fuel (sleep (get w).0 (10 * 2 ^ k)) (suc k) (10 * 2 ^ k * 2)))
      → Ends k w (retry_loop service (suc fuel) w k (10 * 2 ^ k))
  unfolding retry_loop
  one_round fuel k w f others = elim (Answer-cases (get w).1) [
    | inl (offsets, e) ↦ (0, ok offsets, omega (arith, f), tt, rw e refl, rw (e, retry_loop) refl)
    | inr (status, e) ↦ elim (Bool-cases (leb max_retries k)) [
      | inl full ↦
          rw (e, full, retry_loop)
            (fails k w status (err (failed_after_retries status)) (omega (arith, f)) e
              (inl (ground (arith, f, full), refl)))
      | inr room ↦ elim (Bool-cases (is_service_specific status)) [
        | inr foreign ↦
            rw (e, room, foreign, retry_loop)
              (fails k w status (err (unexpected_status status)) (omega (arith, f)) e
                (inr (inl (foreign, refl))))
        | inl specific ↦ elim (Bool-cases (is_illegal_state status)) [
          | inr other ↦
              rw (e, room, specific, other, retry_loop)
                (fails k w status (err (unexpected_specific_error status)) (omega (arith, f)) e
                  (inr (inr (specific, other, refl))))
          | inl waiting ↦
              rw (e, room, specific, waiting, retry_loop)
                (one_more k w
                  (retry_loop service fuel (sleep (get w).0 (10 * 2 ^ k)) (suc k) (10 * 2 ^ k * 2))
                  (status, e, specific, waiting) (others room))
        ]
      ]
    ]
  ]

  retry_loop-Ends :
      (fuel k : ℕ) (w : World)
      → fuel + k ≡ max_retries
      → Ends k w (retry_loop service (suc fuel) w k (10 * 2 ^ k))
  retry_loop-Ends zero k w f =
      one_round 0 k w f (λ room. absurd (false≢true (ground (arith, f, room))))
  retry_loop-Ends (suc fuel) k w f =
      let w' = sleep (get w).0 (10 * 2 ^ k) in
      let doubled : 10 * 2 ^ suc k ≡ 10 * 2 ^ k * 2 = omega (arith, two-pow-succ k) in
      one_round (suc fuel) k w f (λ room.
        subst (λ backoff. Ends (suc k) w' (retry_loop service (suc fuel) w' (suc k) backoff))
          doubled (retry_loop-Ends fuel (suc k) w' (omega (arith, f))))

  -- With the flag, the port returns. There is a last attempt, at most the sixth; each one before it
  -- found that the service is not ready, and was followed by a pause, of 10 milliseconds at first and
  -- then twice the one before. The result is the answer of the last attempt, or an error with its
  -- status: that the retries are used up, if it is the sixth, or else that the status, or the
  -- specific error, is an unexpected one.
  pub get_executable_method_file_offsets_with_retry-Ends :
      (w : World) → Ends 0 w (get_executable_method_file_offsets_with_retry service true w)
  unfolding get_executable_method_file_offsets_with_retry
  get_executable_method_file_offsets_with_retry-Ends w = retry_loop-Ends 5 0 w refl
