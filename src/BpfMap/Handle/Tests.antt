-- ===== src/BpfMap/Handle/Tests.antt =====
-- Objects of `BpfMap` in a process that can have the descriptors 3 and 4.
use platform_packages_module.Prelude.{
  ℕ, ◌+◌, ◌≤◌, ◌≡◌, inl, none, some, Bool, true, false, List, [], ◌∷◌, ◌==◌, if◌then◌else◌, codes,
  ℤ, pos, negsuc, arith, refl,
}
use platform_packages_module.Kernel.Version.{kver, is_at_least_kernel_version}
use platform_packages_module.Kernel.Calls.{Command, obj_get, map_create, bpf_get_fd}
use platform_packages_module.Kernel.Lock.{
  map_retrieve_rw, map_retrieve_ro, map_retrieve_lockless_rw, bpf_lock, take_lock,
}
use platform_packages_module.BpfMap.Open.{mismatch, flags_mismatch}
use platform_packages_module.BpfMap.Handle.{
  System, descriptor, construct_rw, construct_ro, init_rw, init_ro, init_with, check_fit,
  copy_assign, move_assign, reset,
}
use platform_packages_module.BpfMap.Handle.Laws.{one, held, IsSystem}
use platform_packages_module.BpfMap.Handle.Store.{Op, construct, reset_at, move, copy, step, run}
use platform_packages_module.BpfMap.Handle.Owned.{Owned, run-Owned}

-- Which of the two are open.
abbrev Fds : Type 0
Fds = Bool × Bool

abbrev bit : Bool → ℕ
bit true = 1
bit false = 0

abbrev is_open_fd : Fds → ℕ → ℕ
is_open_fd (three, four) m = if m == 3 then bit three else if m == 4 then bit four else 0

abbrev open_fd : Fds → Fds × ℤ
open_fd (false, four) = ((true, four), pos 3)
open_fd (true, false) = ((true, true), pos 4)
open_fd (true, true) = ((true, true), negsuc 0)

abbrev close_fd : Fds → ℕ → Fds
close_fd (three, four) fd =
    if fd == 3 then (false, four) else if fd == 4 then (three, false) else (three, four)

abbrev call : Fds → Command → Fds × ℤ
call w (obj_get path flag) = open_fd w
call w (map_create type key_size value_size max_entries flags inner) = open_fd w
call w _ = (w, negsuc 0)

abbrev process : System
process = record {
  files = record {
    World = Fds;
    bpf = call;
    info = λ w fd. record {
      ret = pos 0;
      errno = 0;
      info_len = 80;
      number = λ offset.
          if offset == 8 then 16 else if offset == 12 then 40 else if offset == 4 then 9 else 0;
    };
    set_lock = λ w fd type start. (w, pos 0);
    close = close_fd;
  };
  dup = λ w fd. open_fd w;
  errno = λ w. 2;
  kvers = kver 6 1 57;
  key_size = 16;
  value_size = 40;
}

is_open_fd-le-one : (w : Fds) (m : ℕ) → is_open_fd w m ≤ 1
is_open_fd-le-one (true, true) m = ground arith
is_open_fd-le-one (true, false) m = ground arith
is_open_fd-le-one (false, true) m = ground arith
is_open_fd-le-one (false, false) m = ground arith

open_fd-opens :
    (w : Fds) (m : ℕ)
    → is_open_fd (open_fd w).0 m ≡ is_open_fd w m + held m (descriptor (open_fd w).1)
open_fd-opens (true, true) m = ground arith
open_fd-opens (true, false) m = ground arith
open_fd-opens (false, true) m = ground arith
open_fd-opens (false, false) m = ground arith

close_fd-closes :
    (w : Fds) (fd m : ℕ)
    → is_open_fd w fd ≡ 1
    → is_open_fd (close_fd w fd) m + one m fd ≡ is_open_fd w m
close_fd-closes (true, true) fd m e = ground (arith, e)
close_fd-closes (true, false) fd m e = ground (arith, e)
close_fd-closes (false, true) fd m e = ground (arith, e)
close_fd-closes (false, false) fd m e = ground (arith, e)

process-IsSystem : IsSystem process
process-IsSystem = record {
  is_open = is_open_fd;
  at_most_once = is_open_fd-le-one;
  gets = λ w path flag m. open_fd-opens w m;
  creates = λ w type key_size value_size max_entries flags m. open_fd-opens w m;
  dups = λ w fd m. open_fd-opens w m;
  locks = λ w fd type start m. refl;
  lock_answers = λ w fd type start. inl refl;
  closes = close_fd-closes;
}

abbrev ops : List Op
ops =
    construct true (codes "/sys/fs/bpf/uprobestats/map_a")
    ∷ construct false (codes "/sys/fs/bpf/uprobestats/map_b")
    ∷ move 0 1
    ∷ copy 1 0
    ∷ reset_at 0
    ∷ []

ops-run : run process ops (false, false) [] ≡ some ((false, true), none ∷ some 4 ∷ [])
unfolding run step construct_rw init_rw map_retrieve_rw bpf_lock map_retrieve_lockless_rw bpf_get_fd
    take_lock init_with check_fit mismatch is_at_least_kernel_version kver flags_mismatch
    construct_ro init_ro map_retrieve_ro copy_assign move_assign reset
ops-run = refl

run-Owned_example : Owned process process-IsSystem (λ fd. 0) (run process ops (false, false) [])
unfolding process-IsSystem
run-Owned_example =
    run-Owned process process-IsSystem (λ fd. 0) ops (false, false) [] λ (m : ℕ). ground arith
