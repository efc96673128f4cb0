-- ===== src/Kernel/Utils/Tests.antt =====
-- Runs of the functions of the headers.
use platform_packages_module.Prelude.{◌≡◌, [], ◌∷◌, true, false, pos, negsuc, refl}
use platform_packages_module.Kernel.Utils.{
  get_socket_cookie, nonexistent_cookie, ebadcookie, wait_for_progs_loaded, wait_loop,
}

delays_run :
    wait_for_progs_loaded (false ∷ false ∷ false ∷ false ∷ false ∷ true ∷ [])
    ≡ (5 ∷ 10 ∷ 20 ∷ 40 ∷ 60 ∷ 60 ∷ [], true)
unfolding wait_for_progs_loaded wait_loop
delays_run = refl

short_cookie :
    get_socket_cookie (record { ret = pos 0; errno = 0; sock_cookie = 7; cookie_len = 4 })
    ≡ (nonexistent_cookie, ebadcookie)
unfolding get_socket_cookie
short_cookie = refl

no_socket :
    get_socket_cookie (record { ret = negsuc 0; errno = 9; sock_cookie = 7; cookie_len = 8 })
    ≡ (nonexistent_cookie, 9)
unfolding get_socket_cookie
no_socket = refl
