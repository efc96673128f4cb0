-- ===== src/Progs/Tests.antt =====
-- The programs that read strings and registers, on the small user memory.
use platform_packages_module.Prelude.{ℕ, ◌≡◌, refl, List, [], ◌∷◌, none, some, arith, replicate}
use platform_packages_module.Progs.Kernel.{Submits}
use platform_packages_module.Progs.Structs.{
  max_string_length, CallResult, ProcessChange, BindServiceLocked, ComponentEnabledSetting,
}
use platform_packages_module.Progs.Fns.{
  store, read_word, string_size, record_string, record_string_arg,
}
use platform_packages_module.Progs.Fns.Laws.{c_string, IsRecorded, record_string-IsRecorded}
use platform_packages_module.Progs.Process.Laws.{
  run_process, name_address, at_on_process_active, IsProcessChange, run_process-IsProcessChange,
}
use platform_packages_module.Progs.Disruptive.{bind_service_locked}
use platform_packages_module.Progs.Disruptive.Laws.{
  HasArrays, IsBindService, bind_service_locked-IsBindService,
}
use platform_packages_module.Progs.Generic.{call_detail}
use platform_packages_module.Progs.Generic.Laws.{call_detail_overruns}
use platform_packages_module.Progs.Sample.{helpers, helpers-IsDocumented, ctx, registers}

-- The string is written over the start of the array; the rest stays.
record_string_runs : c_string (record_string helpers 4 8 (replicate 8 b'x')) ≡ b'h' ∷ []
unfolding record_string string_size read_word store c_string
record_string_runs = refl

record_string-IsRecorded_example :
    IsRecorded helpers 4 8 (replicate 8 b'x') (record_string helpers 4 8 (replicate 8 b'x'))
record_string-IsRecorded_example =
    record_string-IsRecorded helpers-IsDocumented 4 8 (replicate 8 b'x') (omega arith) (omega arith)

-- `recordStringArg` takes the register two beyond the argument's position.
record_string_arg_runs :
    record_string_arg helpers ctx 8 1 (replicate 8 b'x')
    ≡ record_string helpers 3 8 (replicate 8 b'x')
unfolding record_string_arg
record_string_arg_runs = refl

abbrev process_slot : ProcessChange
process_slot = record { pid = 1; uid = 2; process_name = replicate 256 b'x' }

run_process-IsProcessChange_example :
    Submits
      (run_process helpers at_on_process_active ctx (some process_slot))
      (IsProcessChange helpers (name_address helpers at_on_process_active ctx) process_slot)
run_process-IsProcessChange_example =
    run_process-IsProcessChange helpers-IsDocumented ctx at_on_process_active process_slot refl

abbrev xs : List ℕ
xs = replicate max_string_length b'x'

abbrev bind_slot : BindServiceLocked
bind_slot = record {
  intent_action = xs;
  intent_package = xs;
  intent_component_name_package = xs;
  intent_component_name_class = xs;
  bind_flags = 0;
  calling_package = xs;
}

bind_slot-HasArrays : HasArrays bind_slot
bind_slot-HasArrays = record {
  intent_action = refl;
  intent_package = refl;
  intent_component_name_package = refl;
  intent_component_name_class = refl;
  calling_package = refl;
}

bind_service_locked-IsBindService_example :
    Submits (bind_service_locked helpers ctx (some bind_slot)) (IsBindService helpers ctx bind_slot)
bind_service_locked-IsBindService_example =
    bind_service_locked-IsBindService helpers-IsDocumented ctx bind_slot bind_slot-HasArrays

abbrev component_slot : ComponentEnabledSetting
component_slot = record {
  package_name = xs;
  class_name = xs;
  new_state = 0;
  calling_package_name = xs;
}

abbrev stack_result : CallResult
stack_result = record { pc = 0; regs = replicate 10 0 }

call_detail_overruns_example :
    call_detail stack_result (record { regs = registers; pc = 99 }) (some stack_result) ≡ none
call_detail_overruns_example =
    call_detail_overruns stack_result (record { regs = registers; pc = 99 }) (some stack_result)
      refl
