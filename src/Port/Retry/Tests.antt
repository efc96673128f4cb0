-- ===== src/Port/Retry/Tests.antt =====
-- A service that is ready at the fourth attempt, and one that never is.
use platform_packages_module.Prelude.{
  ℕ, suc, ◌≡◌, refl, List, [], ◌∷◌, some, true, false, ltb, ◌==◌, if◌then◌else◌,
}
use platform_packages_module.Port.{ok, err}
use platform_packages_module.Port.Retry.{
  Service, failed_after_retries, failed_to_get, labelled, retry_loop,
  get_executable_method_file_offsets_with_retry,
}
use platform_packages_module.Port.Retry.Laws.{
  Ends, get_executable_method_file_offsets_with_retry-Ends,
}

-- The state counts the attempts and keeps the pauses, the last one first. A status is a code.
abbrev service : ℕ → Service
service ready = record {
  World = ℕ × List ℕ;
  Offsets = ℕ;
  Status = ℕ;
  get = λ (n, pauses). ((suc n, pauses), if ltb n ready then err 5 else ok (some 99));
  sleep = λ (n, pauses) time. (n, time ∷ pauses);
  is_service_specific = λ status. true;
  is_illegal_state = λ status. status == 5;
}

fourth_attempt :
    get_executable_method_file_offsets_with_retry (service 3) true (0, [])
    ≡ some ((4, 40 ∷ 20 ∷ 10 ∷ []), ok (some 99))
unfolding get_executable_method_file_offsets_with_retry retry_loop
fourth_attempt = refl

never_ready :
    get_executable_method_file_offsets_with_retry (service 100) true (0, [])
    ≡ some ((6, 160 ∷ 80 ∷ 40 ∷ 20 ∷ 10 ∷ []), err (failed_after_retries 5))
unfolding get_executable_method_file_offsets_with_retry retry_loop
never_ready = refl

single_attempt :
    get_executable_method_file_offsets_with_retry (service 3) false (0, [])
    ≡ some ((1, []), err (failed_to_get 5))
unfolding get_executable_method_file_offsets_with_retry labelled
single_attempt = refl

get_executable_method_file_offsets_with_retry-Ends_example :
    Ends
      (service 3)
      0
      (0, [])
      (get_executable_method_file_offsets_with_retry (service 3) true (0, []))
get_executable_method_file_offsets_with_retry-Ends_example =
    get_executable_method_file_offsets_with_retry-Ends (service 3) (0, [])
