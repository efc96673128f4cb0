-- ===== src/Guardrail.antt =====
-- Guardrail.cpp: which configurations may run on a user build.
pub mod Laws
pub mod Tests
use platform_packages_module.Prelude.{
  ℕ, List, [], ◌∷◌, ◌++◌, Option, none, some, Bool, true, false, not, ◌&&◌, ◌||◌, if◌then◌else◌,
  is_some, Text, codes, text_eq,
}
use platform_packages_module.Config.{ProbeConfig, TaskConfig, UprobestatsConfig, text_of}
use platform_packages_module.LibBase.{LibBase}

unfoldable pub allowed_method_prefixes : List Text
allowed_method_prefixes =
    codes "com.android.server.am.ActivityManagerService$LocalService.updateDeviceIdleTempAllowlist"
    ∷ codes "com.android.server.am.CachedAppOptimizer"
    ∷ codes "com.android.server.am.OomAdjuster"
    ∷ codes "com.android.server.am.OomAdjusterModernImpl"
    ∷ []

module _ (base : LibBase) where
  open base use {split, starts_with}

  -- The second component, or nothing.
  unfoldable pub second : List Text → Text
  second [] = []
  second (a ∷ []) = []
  second (a ∷ b ∷ rest) = b

  unfoldable pub get_full_method_name : ProbeConfig → Bool → Text
  unfolding second
  get_full_method_name probe api_enabled =
      if api_enabled && is_some probe.fully_qualified_class_name
      then text_of probe.fully_qualified_class_name ++ (codes "." ++ text_of probe.method_name)
      else second (split (text_of probe.method_signature) (codes " "))

  -- The test of one prefix.
  unfoldable pub matches_prefix : Text → Text → Bool
  matches_prefix name allowed =
      starts_with name (allowed ++ codes ".")
      || (starts_with name (allowed ++ codes "$")
          || (starts_with name (allowed ++ codes "(") || text_eq name allowed))

  -- The loop over the prefixes, which stops at the first that matches.
  unfoldable pub matches_some : Text → List Text → Bool
  matches_some name [] = false
  matches_some name (p ∷ ps) = if matches_prefix name p then true else matches_some name ps

  unfoldable pub probes_allowed : Bool → List ProbeConfig → Bool
  probes_allowed api_enabled [] = true
  probes_allowed api_enabled (p ∷ ps) =
      if not (matches_some (get_full_method_name p api_enabled) allowed_method_prefixes)
      then false
      else probes_allowed api_enabled ps

  unfoldable pub tasks_allowed : Bool → List TaskConfig → Bool
  tasks_allowed api_enabled [] = true
  tasks_allowed api_enabled (t ∷ ts) =
      if not (probes_allowed api_enabled t.probe_configs)
      then false
      else tasks_allowed api_enabled ts

  unfoldable pub is_allowed : UprobestatsConfig → Text → Bool → Bool
  is_allowed config build_type api_enabled =
      if not (text_eq build_type (codes "user"))
      then true
      else tasks_allowed api_enabled config.tasks
