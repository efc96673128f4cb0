-- ===== src/Progs/Disruptive/Laws.antt =====
-- What the programs of bpf_progs/DisruptiveApp.c submit, whatever the probed process holds.
use platform_packages_module.Prelude.{ℕ, ◌+◌, ◌≤◌, ◌<◌, ◌≡◌, refl, List, some, arith, length, u32}
use platform_packages_module.Progs.Kernel.{Helpers, IsDocumented, Submits}
use platform_packages_module.Progs.Structs.{
  PtRegs, reg, BindServiceLocked, ComponentEnabledSetting, max_string_length,
}
use platform_packages_module.Progs.Fns.{read_word, record_string, record_string_arg_from_sp}
use platform_packages_module.Progs.Fns.Laws.{IsRecorded, record_string-IsRecorded}
use platform_packages_module.Progs.Disruptive.{
  bind_service_locked, set_component_enabled_setting, intent_package_offset, intent_action_offset,
  intent_component_name_offset, component_name_class_offset, component_name_package_offset,
  calling_package_stack_frame_offset,
}

-- A slot as `bpf_BindServiceLocked_output_buf_reserve` gives it: five arrays of 128 bytes.
pub record HasArrays (s : BindServiceLocked) : Type 0 where
  pub intent_action : length s.intent_action ≡ max_string_length
  pub intent_package : length s.intent_package ≡ max_string_length
  pub intent_component_name_package : length s.intent_component_name_package ≡ max_string_length
  pub intent_component_name_class : length s.intent_component_name_class ≡ max_string_length
  pub calling_package : length s.calling_package ≡ max_string_length

-- The five strings of a record come from the intent, its component name and the stack frame.
pub record IsBindService (k : Helpers) (ctx : PtRegs) (s o : BindServiceLocked) : Type 0 where
  pub intent_action :
      IsRecorded k
        (read_word k 4 (reg ctx 4 + intent_action_offset))
        max_string_length
        s.intent_action
        o.intent_action
  pub intent_package :
      IsRecorded k
        (read_word k 4 (reg ctx 4 + intent_package_offset))
        max_string_length
        s.intent_package
        o.intent_package
  pub intent_component_name_package :
      IsRecorded k
        (read_word k 4 (
          read_word k 4 (reg ctx 4 + intent_component_name_offset) + component_name_package_offset))
        max_string_length
        s.intent_component_name_package
        o.intent_component_name_package
  pub intent_component_name_class :
      IsRecorded k
        (read_word k 4
          (read_word k 4 (reg ctx 4 + intent_component_name_offset) + component_name_class_offset))
        max_string_length
        s.intent_component_name_class
        o.intent_component_name_class
  pub bind_flags : o.bind_flags ≡ reg ctx 7
  pub calling_package :
      IsRecorded k
        (read_word k 4 (ctx.sp + calling_package_stack_frame_offset))
        max_string_length
        s.calling_package
        o.calling_package

module _ {k : Helpers} (doc : IsDocumented k) (ctx : PtRegs) where
  fills :
      (jstring n : ℕ) (dest : List ℕ)
      → length dest ≡ max_string_length
      → 0 < n
      → n ≤ max_string_length
      → IsRecorded k jstring n dest (record_string k jstring n dest)
  fills jstring n dest e h fits = record_string-IsRecorded doc jstring n dest h (omega arith)

  -- `bind_service_locked` returns 0 and submits a record whose five strings are filled within
  -- their arrays from the intent's action, package and component name and from the calling package
  -- in the stack frame, with the flags of register 7, if the slot's arrays have their size.
  pub bind_service_locked-IsBindService :
      (slot : BindServiceLocked)
      → HasArrays slot
      → Submits (bind_service_locked k ctx (some slot)) (IsBindService k ctx slot)
  unfolding bind_service_locked record_string_arg_from_sp
  bind_service_locked-IsBindService slot a = (
    refl,
    record {
      intent_action = fills _ _ _ a.intent_action (omega arith) (omega arith);
      intent_package = fills _ _ _ a.intent_package (omega arith) (omega arith);
      intent_component_name_package =
          fills _ _ _ a.intent_component_name_package (omega arith) (omega arith);
      intent_component_name_class =
          fills _ _ _ a.intent_component_name_class (omega arith) (omega arith);
      bind_flags = refl;
      calling_package = fills _ _ _ a.calling_package (omega arith) (omega arith);
    },
  )

  -- `set_component_enabled_setting` returns 0 and submits a record whose three strings are filled
  -- within their arrays, with at most 64 bytes each, and whose state is the low half of register 3,
  -- if the slot's arrays have 128 bytes.
  pub set_component_enabled_setting-record :
      (slot : ComponentEnabledSetting)
      → length slot.package_name ≡ max_string_length
      → length slot.class_name ≡ max_string_length
      → length slot.calling_package_name ≡ max_string_length
      → Submits (set_component_enabled_setting k ctx (some slot)) (λ o.
        IsRecorded k
          (read_word k 4 (reg ctx 2 + component_name_package_offset))
          64
          slot.package_name
          o.package_name
        × IsRecorded k
            (read_word k 4 (reg ctx 2 + component_name_class_offset))
            64
            slot.class_name
            o.class_name
        × (o.new_state ≡ u32 (reg ctx 3))
        × IsRecorded k (reg ctx 6) 64 slot.calling_package_name o.calling_package_name)
  unfolding set_component_enabled_setting
  set_component_enabled_setting-record slot p c q = (
    refl,
    (
      fills _ _ _ p (omega arith) (omega arith),
      fills _ _ _ c (omega arith) (omega arith),
      refl,
      fills _ _ _ q (omega arith) (omega arith),
    ),
  )
