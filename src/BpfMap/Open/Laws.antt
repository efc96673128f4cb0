-- ===== src/BpfMap/Open/Laws.antt =====
-- What a map that is ready satisfies.
use platform_packages_module.Prelude.{ℕ, ◌≡◌, ◌↔◌, ◌⊎◌, Bool, true, false, ◌&&◌, arith, pos}
use platform_packages_module.Kernel.Version.{is_at_least_kernel_version}
use platform_packages_module.Kernel.Calls.{Info, Result, bpf_get_fd}
use platform_packages_module.BpfMap.Open.{
  aborted, ready, has_rdonly, has_wronly, flags_mismatch, mismatch, init_map,
}

-- The kernel tells a number below 2 ^ 31 at an offset.
abbrev pub TellsNumber : Info → (offset n : ℕ) → Type 0
TellsNumber info offset n = (bpf_get_fd offset info).ret ≡ pos n

-- The kernel tells flags that allow what the map is opened for, and the sizes of the types.
abbrev pub Fits : (key_size value_size : ℕ) (writable : Bool) → Info → Type 0
Fits key_size value_size writable info =
    ((flags : ℕ) × TellsNumber info 20 flags
      × (has_wronly flags ≡ false)
      × ((writable && has_rdonly flags) ≡ false))
    × TellsNumber info 8 key_size
    × TellsNumber info 12 value_size

-- A map that was opened, on a kernel from 4.14 on, is ready for use exactly if the kernel tells flags
-- that allow reading, and writing if it is asked for, and the sizes of the key's and the value's
-- types; else the process aborts.
pub init_map_iff :
    (key_size value_size kvers : ℕ) (writable : Bool) (opened : Result) (info : ℕ → Info) (fd : ℕ)
    → is_at_least_kernel_version kvers 4 14 0 ≡ true
    → opened.ret ≡ pos fd
    → ((init_map key_size value_size kvers writable opened info ≡ ready fd)
        ↔ Fits key_size value_size writable (info fd))
      × ((init_map key_size value_size kvers writable opened info ≡ ready fd)
          ⊎ (init_map key_size value_size kvers writable opened info ≡ aborted))
unfolding init_map mismatch flags_mismatch
init_map_iff key_size value_size kvers writable opened info fd new e = ground (arith, new, e)
