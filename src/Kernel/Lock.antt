-- ===== src/Kernel/Lock.antt =====
-- bpf/syscall_wrappers/include/BpfSyscallWrappers.h: pinned maps and programs as they are opened, with
-- a lock on the map, for one writer or for several readers.
pub mod Laws
use platform_packages_module.Prelude.{
  ℕ, ◌∷◌, Option, Bool, true, false, not, ◌&&◌, ◌==◌, if◌then◌else◌, Text, ℤ, pos, negsuc, is_zero,
  is_negative,
}
use platform_packages_module.Kernel.Calls.{Command, bpf_fd_get, Info, bpf_get_fd_map_id}

-- `F_RDLCK` and `F_WRLCK`
pub data LockType : Type 0 where
  read_lock write_lock : LockType

-- The calls. `set_lock` is `fcntl` with F_OFD_SETLK, for one byte from an offset on.
pub record Files : Type 1 where
  pub World : Type 0
  pub bpf : World → Command → World × ℤ
  pub info : World → ℕ → Info
  pub set_lock : World → ℕ → LockType → (start : ℕ) → World × ℤ
  pub close : World → ℕ → World

-- How a wrapper ends.
pub data Outcome : Type 0 where
  aborted : Outcome
  returned : ℤ → Outcome

-- EINVAL
abbrev pub einval : ℕ
einval = 22

-- BPF_F_RDONLY and BPF_F_WRONLY
abbrev pub f_rdonly : ℕ
f_rdonly = 8

abbrev pub f_wronly : ℕ
f_wronly = 16

-- `x == -1`
abbrev pub is_minus_one : ℤ → Bool
is_minus_one (pos n) = false
is_minus_one (negsuc n) = n == 0

module _ (files : Files) where
  -- The part of `bpfLock` that takes the lock.
  unfoldable pub take_lock : files.World → ℕ → LockType → (map_id : ℕ) → files.World × Outcome
  take_lock w fd type map_id =
      let (w1, ret) = files.set_lock w fd type map_id in
      if is_zero ret then (w1, returned (pos fd)) else (files.close w1 fd, returned ret)

  -- `bpfLock`; before kernel 4.14 there is no id to lock.
  unfoldable pub bpf_lock : files.World → ℤ → LockType → files.World × Outcome
  bpf_lock w (negsuc n) type = (w, returned (negsuc n))
  bpf_lock w (pos fd) type =
      let asked = bpf_get_fd_map_id (files.info w fd) in
      if is_minus_one asked.ret && (asked.errno == einval)
      then (w, returned (pos fd))
      else elim asked.ret [
        | negsuc n ↦ (w, aborted)
        | pos map_id ↦ if map_id == 0 then (w, aborted) else take_lock w fd type map_id
      ]

  -- `mapRetrieveLocklessRW`, which is `bpfFdGet` without flags.
  unfoldable pub map_retrieve_lockless_rw : files.World → Text → files.World × ℤ
  map_retrieve_lockless_rw w path = files.bpf w (bpf_fd_get path 0)

  -- `mapRetrieveExclusiveRW`
  unfoldable pub map_retrieve_exclusive_rw : files.World → Text → files.World × Outcome
  map_retrieve_exclusive_rw w path =
      let (w1, fd) = map_retrieve_lockless_rw w path in bpf_lock w1 fd write_lock

  -- `mapRetrieveRW`
  unfoldable pub map_retrieve_rw : files.World → Text → files.World × Outcome
  map_retrieve_rw w path =
      let (w1, fd) = map_retrieve_lockless_rw w path in bpf_lock w1 fd read_lock

  -- `mapRetrieveRO`
  unfoldable pub map_retrieve_ro : files.World → Text → files.World × ℤ
  map_retrieve_ro w path = files.bpf w (bpf_fd_get path f_rdonly)

  -- `mapRetrieveWO`
  unfoldable pub map_retrieve_wo : files.World → Text → files.World × Outcome
  map_retrieve_wo w path =
      let (w1, fd) = files.bpf w (bpf_fd_get path f_wronly) in bpf_lock w1 fd write_lock

  -- `retrieveProgram`
  unfoldable pub retrieve_program : files.World → Text → files.World × ℤ
  retrieve_program w path = files.bpf w (bpf_fd_get path f_rdonly)

  -- `usableProgram`
  unfoldable pub usable_program : files.World → Text → files.World × Bool
  usable_program w path =
      let (w1, fd) = retrieve_program w path in
      elim fd [ negsuc n ↦ (w1, false) | pos n ↦ (files.close w1 n, true) ]
