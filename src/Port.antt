-- ===== src/Port.antt =====
-- The parts of the port of the daemon under rust/src that are compared with the daemon itself. The
-- operations on strings are given, with what the documentation of the standard library says.
pub mod Guardrail
pub mod Retry
use platform_packages_module.Prelude.{◌≡◌, ◌↔◌, List, ◌++◌, Bool, true, Text}

pub record Strings : Type 0 where
  pub split : Text → Text → List Text
  pub starts_with : Text → Text → Bool
  pub starts_with_iff :
      (s prefix : Text) → (starts_with s prefix ≡ true) ↔ ((rest : Text) × (s ≡ prefix ++ rest))

-- A result, with the reason of a failure.
pub data Answer (E : Type 0) (A : Type 0) : Type 0 where
  ok : A → Answer E A
  err : E → Answer E A
