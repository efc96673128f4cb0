-- ===== src/Config.antt =====
-- config.proto: the configuration message, with an optional field as an `Option`. The C++ accessors
-- are generated from it; an absent field reads as the type's default.
use platform_packages_module.Prelude.{List, [], Option, none, some, Text, ℤ, pos}

-- `StatsdLoggingConfig`
pub record LoggingConfig : Type 0 where
  pub atom_id : Option ℤ
  pub primitive_argument_positions : List ℤ

pub record ProbeConfig : Type 0 where
  pub bpf_name : Option Text
  pub file_paths : List Text
  pub method_signature : Option Text
  pub fully_qualified_class_name : Option Text
  pub method_name : Option Text
  pub fully_qualified_parameters : List Text

pub record TaskConfig : Type 0 where
  pub probe_configs : List ProbeConfig
  pub bpf_maps : List Text
  pub target_process_name : Option Text
  pub duration_seconds : Option ℤ
  pub statsd_logging_config : Option LoggingConfig

pub record UprobestatsConfig : Type 0 where
  pub tasks : List TaskConfig

-- The accessor of an optional string, and of an optional integer.
abbrev pub text_of : Option Text → Text
text_of none = []
text_of (some s) = s

abbrev pub int_of : Option ℤ → ℤ
int_of none = pos 0
int_of (some n) = n
