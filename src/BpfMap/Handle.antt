-- ===== src/BpfMap/Handle.antt =====
-- src/bpf/headers/include/bpf/BpfMap.h: the objects `BpfMapRO` and `BpfMap`, as far as they own a
-- descriptor. An object is its `mMapFd`, nothing if that is invalid. `unique_fd` and the calls that
-- open, copy and close descriptors are those of Kernel.Lock.
pub mod Store
pub mod Laws
pub mod Owned
mod Tests
use platform_packages_module.Prelude.{
  ℕ, Option, none, some, Bool, true, false, ◌||◌, if◌then◌else◌, Text, ℤ, pos, negsuc,
}
use platform_packages_module.Kernel.Calls.{create_map}
use platform_packages_module.Kernel.Lock.{
  Files, Outcome, returned, map_retrieve_ro, map_retrieve_rw,
}
use platform_packages_module.BpfMap.Open.{mismatch, has_rdonly, has_wronly}

-- What the objects need of the system: the calls, `fcntl` with F_DUPFD_CLOEXEC, and `errno`; the
-- version of the kernel, and the sizes of the key's and the value's types.
pub record System : Type 1 where
  pub files : Files
  pub dup : files.World → ℕ → files.World × ℤ
  pub errno : files.World → ℕ
  pub kvers : ℕ
  pub key_size : ℕ
  pub value_size : ℕ

-- `mMapFd`
abbrev pub Handle : Type 0
Handle = Option ℕ

abbrev pub descriptor : ℤ → Handle
descriptor (pos fd) = some fd
descriptor (negsuc n) = none

-- How an operation ends: the process aborts, or the object is left with a descriptor, and the answer
-- is nothing or an error's number.
pub data Ended (W : Type 0) : Type 0 where
  aborted : Ended W
  ended : W → Handle → (error : Option ℕ) → Ended W

module _ (sys : System) where
  -- `unique_fd::reset`
  abbrev pub reset_to : sys.files.World → Handle → Handle → sys.files.World × Handle
  reset_to w none new = (w, new)
  reset_to w (some old) new = (sys.files.close w old, new)

  -- `abortOnMismatch` of an object that has just got a valid descriptor.
  unfoldable pub check_fit : (writable : Bool) → sys.files.World → ℕ → Ended sys.files.World
  check_fit writable w fd =
      if mismatch sys.key_size sys.value_size sys.kvers writable (sys.files.info w fd)
      then aborted
      else ended w (some fd) none

  -- The protected `init`, of a descriptor that was opened before.
  unfoldable pub init_with :
      (writable : Bool) → sys.files.World → Handle → ℤ → Ended sys.files.World
  init_with writable w h (negsuc n) =
      let (w1, h1) = reset_to w h none in ended w1 h1 (some (sys.errno w))
  init_with writable w h (pos fd) = check_fit writable (reset_to w h (some fd)).0 fd

  abbrev pub init_outcome :
      (writable : Bool) → sys.files.World → Handle → Outcome → Ended sys.files.World
  init_outcome writable w h Outcome.aborted = aborted
  init_outcome writable w h (returned fd) = init_with writable w h fd

  -- `BpfMapRO::init`
  unfoldable pub init_ro : sys.files.World → Handle → Text → Ended sys.files.World
  init_ro w h path = let (w1, fd) = map_retrieve_ro sys.files w path in init_with false w1 h fd

  -- `BpfMap::init`
  unfoldable pub init_rw : sys.files.World → Handle → Text → Ended sys.files.World
  init_rw w h path =
      let (w1, opened) = map_retrieve_rw sys.files w path in init_outcome true w1 h opened

  -- A constructor from a path: `abortOnMismatch` aborts if there is no descriptor either.
  abbrev pub or_abort : Ended sys.files.World → Ended sys.files.World
  or_abort aborted = aborted
  or_abort (ended w none error) = aborted
  or_abort (ended w (some fd) error) = ended w (some fd) error

  -- `BpfMapRO(pathname)` and `BpfMap(pathname)`
  unfoldable pub construct_ro : sys.files.World → Text → Ended sys.files.World
  construct_ro w path = or_abort (init_ro w none path)

  unfoldable pub construct_rw : sys.files.World → Text → Ended sys.files.World
  construct_rw w path = or_abort (init_rw w none path)

  -- `reset()`, which the destructor does too.
  unfoldable pub reset : sys.files.World → Handle → Ended sys.files.World
  reset w h = let (w1, h1) = reset_to w h none in ended w1 h1 none

  -- `reset(fd)`
  unfoldable pub reset_fd : sys.files.World → Handle → ℤ → Ended sys.files.World
  reset_fd w h (negsuc n) = reset w h
  reset_fd w h (pos fd) = check_fit false (reset_to w h (some fd)).0 fd

  -- `isValid`
  abbrev pub is_valid : Handle → Bool
  is_valid none = false
  is_valid (some fd) = true

  -- The move assignment from another object, which is reset: the state, this object and the other.
  unfoldable pub move_assign :
      sys.files.World → (this other : Handle) → sys.files.World × (Handle × Handle)
  move_assign w this other = let (w1, h1) = reset_to w this other in (w1, (h1, none))

  -- A copy of a descriptor; that of an invalid one fails.
  abbrev pub dup_of : sys.files.World → Handle → sys.files.World × ℤ
  dup_of w none = (w, negsuc 0)
  dup_of w (some fd) = sys.dup w fd

  -- The copy assignment from another object.
  unfoldable pub copy_assign : sys.files.World → (this other : Handle) → Ended sys.files.World
  copy_assign w this other =
      let (w1, fd) = dup_of w other in
      let (w2, h) = reset_to w1 this (descriptor fd) in ended w2 h none

  -- `resetMap`
  unfoldable pub reset_map :
      sys.files.World → Handle → (map_type max_entries map_flags : ℕ) → Ended sys.files.World
  reset_map w h map_type max_entries map_flags =
      if has_wronly map_flags || has_rdonly map_flags
      then aborted
      else let (w1, fd) =
          sys.files.bpf w (create_map map_type sys.key_size sys.value_size max_entries map_flags) in
        init_with true w1 h fd
