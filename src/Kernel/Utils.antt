-- ===== src/Kernel/Utils.antt =====
-- bpf/headers/include/bpf/BpfUtils.h and WaitForProgsLoaded.h: what else the headers offer of the
-- kernel and the loader.
pub mod Laws
mod Tests
use platform_packages_module.Prelude.{
  ℕ, ◌*◌, List, [], ◌∷◌, Bool, true, false, not, ◌==◌, ltb, if◌then◌else◌, ℤ, pos, negsuc, is_zero,
  minus_errno,
}

-- What `getsockopt` for SO_COOKIE answers: its result and error number, the cookie, and its length.
pub record CookieAnswer : Type 0 where
  pub ret : ℤ
  pub errno : ℕ
  pub sock_cookie : ℕ
  pub cookie_len : ℕ

-- EBADCOOKIE
abbrev pub ebadcookie : ℕ
ebadcookie = 523

abbrev pub nonexistent_cookie : ℕ
nonexistent_cookie = 0

-- `getSocketCookie`: the cookie, and the error number that is left.
unfoldable pub get_socket_cookie : CookieAnswer → ℕ × ℕ
get_socket_cookie answer =
    if not (is_zero answer.ret)
    then (nonexistent_cookie, answer.errno)
    else if not (answer.cookie_len == 8)
    then (nonexistent_cookie, ebadcookie)
    else (answer.sock_cookie, answer.errno)

-- `socket` for a PF_KEY socket, `close`, and the error number.
pub record Sockets : Type 1 where
  pub World : Type 0
  pub key_socket : World → World × ℤ
  pub close : World → ℕ → World × ℤ
  pub errno : World → ℕ

module _ (sockets : Sockets) where
  -- `synchronizeKernelRCU`
  unfoldable pub synchronize_kernel_rcu : sockets.World → sockets.World × ℤ
  synchronize_kernel_rcu w =
      let (w1, fd) = sockets.key_socket w in
      elim fd [
        | negsuc n ↦ (w1, minus_errno (sockets.errno w1))
        | pos fd ↦
            let (w2, ret) = sockets.close w1 fd in
            if not (is_zero ret) then (w2, minus_errno (sockets.errno w2)) else (w2, pos 0)
      ]

-- `setrlimitForTest`: the two limits that are asked for, and the result, which is passed on.
unfoldable pub setrlimit_for_test : (setrlimit : (rlim_cur rlim_max : ℕ) → ℤ) → ℤ
setrlimit_for_test setrlimit = setrlimit 1073741824 1073741824

-- The loop of `waitForProgsLoaded` over the answers of `WaitForProperty` in their order: the delays
-- that were waited for, and whether the loop has ended.
unfoldable pub wait_loop : (delay : ℕ) → List Bool → List ℕ × Bool
wait_loop delay [] = ([], false)
wait_loop delay (loaded ∷ answers) =
    let waited = if ltb 60 delay then 60 else delay in
    let rest = wait_loop (waited * 2) answers in
    if loaded then (waited ∷ [], true) else (waited ∷ rest.0, rest.1)

-- `waitForProgsLoaded`
unfoldable pub wait_for_progs_loaded : List Bool → List ℕ × Bool
wait_for_progs_loaded answers = wait_loop 5 answers
