-- ===== src/LibBase.antt =====
-- What the program takes from android-base, which is not in the repository: string functions, with
-- their documented behaviour as laws.
pub mod Sample
use platform_packages_module.Prelude.{◌≡◌, ◌↔◌, List, ◌++◌, Bool, true, Text}

pub record LibBase : Type 0 where
  pub split : Text → Text → List Text
  pub starts_with : Text → Text → Bool
  pub ends_with : Text → Text → Bool
  pub starts_with_iff :
      (s prefix : Text) → (starts_with s prefix ≡ true) ↔ ((rest : Text) × (s ≡ prefix ++ rest))
