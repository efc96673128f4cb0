-- ===== src/Progs/Disruptive.antt =====
-- bpf_progs/DisruptiveApp.c
pub mod Laws
use platform_packages_module.Prelude.{ℕ, ◌+◌, Option, none, some, u32}
use platform_packages_module.Progs.Kernel.{Helpers, Outcome}
use platform_packages_module.Progs.Structs.{
  max_string_length, PtRegs, reg, BindServiceLocked, ComponentEnabledSetting,
}
use platform_packages_module.Progs.Fns.{read_word, record_string, record_string_arg_from_sp}

abbrev pub intent_package_offset : ℕ
intent_package_offset = 48

abbrev pub intent_component_name_offset : ℕ
intent_component_name_offset = 20

abbrev pub intent_action_offset : ℕ
intent_action_offset = 8

abbrev pub component_name_class_offset : ℕ
component_name_class_offset = 8

abbrev pub component_name_package_offset : ℕ
component_name_package_offset = 12

abbrev pub calling_package_stack_frame_offset : ℕ
calling_package_stack_frame_offset = 60

module _ (k : Helpers) where
  unfoldable pub bind_service_locked : PtRegs → Option BindServiceLocked → Outcome BindServiceLocked
  bind_service_locked ctx none = record { ret = 1; submitted = none }
  bind_service_locked ctx (some output) =
      let intent_ptr = reg ctx 4 in
      let component_name_ptr = read_word k 4 (intent_ptr + intent_component_name_offset) in
      let record_at = λ (address : ℕ). record_string k (read_word k 4 address) max_string_length in
      record {
        ret = 0;
        submitted = some (record {
          intent_action = record_at (intent_ptr + intent_action_offset) output.intent_action;
          intent_package = record_at (intent_ptr + intent_package_offset) output.intent_package;
          intent_component_name_package =
              record_at (component_name_ptr + component_name_package_offset)
                output.intent_component_name_package;
          intent_component_name_class =
              record_at (component_name_ptr + component_name_class_offset)
                output.intent_component_name_class;
          bind_flags = reg ctx 7;
          calling_package =
              record_string_arg_from_sp k ctx max_string_length calling_package_stack_frame_offset
                output.calling_package;
        });
      }

  unfoldable pub set_component_enabled_setting :
      PtRegs → Option ComponentEnabledSetting → Outcome ComponentEnabledSetting
  set_component_enabled_setting ctx none = record { ret = 1; submitted = none }
  set_component_enabled_setting ctx (some output) =
      let component_name_ptr = reg ctx 2 in
      let class_name = read_word k 4 (component_name_ptr + component_name_class_offset) in
      let package_name = read_word k 4 (component_name_ptr + component_name_package_offset) in
      record {
        ret = 0;
        submitted = some (record {
          package_name = record_string k package_name 64 output.package_name;
          class_name = record_string k class_name 64 output.class_name;
          new_state = u32 (reg ctx 3);
          calling_package_name = record_string k (reg ctx 6) 64 output.calling_package_name;
        });
      }
