-- ===== src/BpfMap/Open.antt =====
-- src/bpf/headers/include/bpf/BpfMap.h: opening a pinned map, with the check of its shape.
pub mod Laws
use platform_packages_module.Prelude.{
  ℕ, ◌/◌, ◌%◌, Bool, true, false, not, ◌&&◌, ◌||◌, ◌==◌, if◌then◌else◌, ℤ, pos, negsuc,
}
use platform_packages_module.Kernel.Version.{is_at_least_kernel_version}
use platform_packages_module.Kernel.Calls.{
  Info, Result, bpf_get_fd_map_flags, bpf_get_fd_key_size, bpf_get_fd_value_size,
}

-- How `init` ends.
pub data Opened : Type 0 where
  aborted : Opened
  failed : (errno : ℕ) → Opened
  ready : (fd : ℕ) → Opened

-- BPF_F_RDONLY and BPF_F_WRONLY among the flags.
abbrev pub has_rdonly : ℕ → Bool
has_rdonly flags = flags / 8 % 2 == 1

abbrev pub has_wronly : ℕ → Bool
has_wronly flags = flags / 16 % 2 == 1

-- The comparison of a size with that of a type.
abbrev pub is_size : ℤ → ℕ → Bool
is_size (pos n) size = n == size
is_size (negsuc n) size = false

module _ (key_size value_size kvers : ℕ) where
  -- The tests of `abortOnMismatch` on the flags, those on the sizes follow.
  unfoldable pub flags_mismatch : (writable : Bool) → ℤ → Bool
  flags_mismatch writable (negsuc n) = true
  flags_mismatch writable (pos flags) = has_wronly flags || (writable && has_rdonly flags)

  -- `abortOnMismatch` of a valid descriptor; before kernel 4.14 nothing is known of a map.
  unfoldable pub mismatch : (writable : Bool) → Info → Bool
  mismatch writable info =
      if not (is_at_least_kernel_version kvers 4 14 0)
      then false
      else flags_mismatch writable (bpf_get_fd_map_flags info).ret
        || (not (is_size (bpf_get_fd_key_size info).ret key_size)
            || not (is_size (bpf_get_fd_value_size info).ret value_size))

  -- `init`, of the descriptor or the error that opening the pinned map gave.
  unfoldable pub init_map : (writable : Bool) → Result → (ℕ → Info) → Opened
  init_map writable opened info = elim opened.ret [
    | negsuc n ↦ failed opened.errno
    | pos fd ↦ if mismatch writable (info fd) then aborted else ready fd
  ]
