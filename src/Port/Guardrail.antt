-- ===== src/Port/Guardrail.antt =====
-- rust/src/guardrail.rs: the guardrail of the port, which ends with an error where a name is missing.
mod Laws
mod Tests
use platform_packages_module.Prelude.{
  List, [], ◌∷◌, ◌++◌, Option, none, some, Bool, true, false, not, ◌||◌, if◌then◌else◌, Text, codes,
  text_eq,
}
use platform_packages_module.Config.{ProbeConfig, TaskConfig, UprobestatsConfig}
use platform_packages_module.Port.{Strings, Answer, ok, err}

-- The messages of the errors.
pub data Failure : Type 0 where
  class_name_empty : Failure
  method_name_empty : Failure
  method_signature_empty : Failure
  method_signature_invalid : Failure

-- `ALLOWED_METHOD_PREFIXES`
unfoldable pub allowed_method_prefixes : List Text
allowed_method_prefixes =
    codes "com.android.server.am.ActivityManagerService$LocalService.updateDeviceIdleTempAllowlist"
    ∷ codes "com.android.server.am.CachedAppOptimizer"
    ∷ codes "com.android.server.am.OomAdjuster"
    ∷ codes "com.android.server.am.OomAdjusterModernImpl"
    ∷ codes
        "com.android.server.pm.PackageManagerService$IPackageManagerImpl.setComponentEnabledSetting"
    ∷ codes "com.android.server.am.ActiveServices.bindServiceLocked"
    ∷ []

-- `parts.nth(1)` with its error.
unfoldable pub nth_part : List Text → Answer Failure Text
nth_part [] = err method_signature_invalid
nth_part (a ∷ []) = err method_signature_invalid
nth_part (a ∷ b ∷ rest) = ok b

module _ (strings : Strings) where
  open strings use {split, starts_with}

  unfoldable pub get_full_method_name : ProbeConfig → Bool → Answer Failure Text
  get_full_method_name probe offsets_api_enabled =
      if offsets_api_enabled
      then elim probe.fully_qualified_class_name [
        | none ↦ err class_name_empty
        | some fqcn ↦ elim probe.method_name [
          | none ↦ err method_name_empty
          | some method_name ↦ ok (fqcn ++ (codes "." ++ method_name))
        ]
      ]
      else elim probe.method_signature [
        | none ↦ err method_signature_empty
        | some method_signature ↦ nth_part (split method_signature (codes " "))
      ]

  -- The test of one prefix.
  unfoldable pub allows : Text → Text → Bool
  allows full_method_name prefix =
      text_eq full_method_name prefix
      || (starts_with full_method_name (prefix ++ codes "(")
          || (starts_with full_method_name (prefix ++ codes ".")
              || starts_with full_method_name (prefix ++ codes "$")))

  -- The loop over the prefixes.
  unfoldable pub some_allows : Text → List Text → Bool
  some_allows full_method_name [] = false
  some_allows full_method_name (prefix ∷ prefixes) =
      if allows full_method_name prefix then true else some_allows full_method_name prefixes

  -- The loop over the probes of a task, up to the first error or the first that is not allowed.
  unfoldable pub all_probes : Bool → List ProbeConfig → Answer Failure Bool
  all_probes api [] = ok true
  all_probes api (p ∷ ps) = elim (get_full_method_name p api) [
    | err e ↦ err e
    | ok name ↦
        if not (some_allows name allowed_method_prefixes) then ok false else all_probes api ps
  ]

  unfoldable pub all_tasks : Bool → List TaskConfig → Answer Failure Bool
  all_tasks api [] = ok true
  all_tasks api (t ∷ ts) = elim (all_probes api t.probe_configs) [
    | err e ↦ err e
    | ok fine ↦ if not fine then ok false else all_tasks api ts
  ]

  unfoldable pub is_allowed : UprobestatsConfig → Bool → Bool → Answer Failure Bool
  is_allowed config is_user_build api =
      if not is_user_build then ok true else all_tasks api config.tasks
