-- ===== src/Flags.antt =====
-- FlagSelector.cpp: the flags of the build, in the mainline module or outside of it. The two generated
-- libraries of flags are given.
use platform_packages_module.Prelude.{Bool, if◌then◌else◌}

-- A library of flags.
pub record FlagLibrary : Type 0 where
  pub enable_uprobestats : Bool
  pub uprobestats_support_update_device_idle_temp_allowlist : Bool
  pub executable_method_file_offsets : Bool

-- The build: whether UPROBESTATS_IN_MAINLINE is defined, and both libraries.
pub record Build : Type 0 where
  pub in_mainline : Bool
  pub mainline_flags : FlagLibrary
  pub flags : FlagLibrary

unfoldable pub enable_uprobestats : Build → Bool
enable_uprobestats b =
    if b.in_mainline then b.mainline_flags.enable_uprobestats else b.flags.enable_uprobestats

unfoldable pub uprobestats_support_update_device_idle_temp_allowlist : Build → Bool
uprobestats_support_update_device_idle_temp_allowlist b =
    if b.in_mainline
    then b.mainline_flags.uprobestats_support_update_device_idle_temp_allowlist
    else b.flags.uprobestats_support_update_device_idle_temp_allowlist

unfoldable pub executable_method_file_offsets : Build → Bool
executable_method_file_offsets b =
    if b.in_mainline
    then b.mainline_flags.executable_method_file_offsets
    else b.flags.executable_method_file_offsets
