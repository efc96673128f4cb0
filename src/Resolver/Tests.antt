-- ===== src/Resolver/Tests.antt =====
-- Resolution of a sample task, process ids and oatdump output.
use platform_packages_module.Prelude.{
  ◌≡◌, ◌↔◌, refl, List, [], ◌∷◌, Option, none, some, true, if◌then◌else◌, Text, codes, text_eq, ℤ,
  pos, negsuc, has_prefix,
}
use platform_packages_module.Config.{ProbeConfig, TaskConfig}
use platform_packages_module.Guardrail.Tests.{probe, task}
use platform_packages_module.Resolver.{
  ResolvedTask, MethodOffsets, resolve_single_task, resolve_loop,
}
use platform_packages_module.Resolver.Laws.{
  IsRunnable, resolve_single_task_iff, here, later, by_class, by_file, none_left, resolved,
  resolve_loop-resolved,
}
use platform_packages_module.Resolver.Pid.{ProcEntry}
use platform_packages_module.Resolver.Oat.{
  OatEntry, parse_hex, offset_in, lines_of, get_method_offset_from_oatdump,
}

abbrev pub timed_task : TaskConfig
timed_task = record task { duration_seconds = some (negsuc 4) }

abbrev pub pid_of : Text → ℤ
pid_of name = if text_eq name (codes "system_server") then pos 1234 else negsuc 0

abbrev pub server_task : ResolvedTask
server_task = record { task_config = timed_task; pid = pos 1234 }

resolve_single_task_iff_example :
    (resolve_single_task pid_of (record { tasks = timed_task ∷ [] }) ≡ some server_task)
    ↔ (IsRunnable pid_of timed_task × (server_task ≡ server_task))
resolve_single_task_iff_example = resolve_single_task_iff pid_of timed_task [] server_task

abbrev path_a : Text
path_a = codes "/a.oat"

abbrev path_b : Text
path_b = codes "/b.oat"

abbrev pub oat : Text → Text → ℤ
oat path signature = if has_prefix path (codes "/b") then pos 64 else pos 0

abbrev pub offsets : Text → Text → Text → List Text → Option MethodOffsets
offsets process class method parameters =
    some (record { container_path = codes "/c.so"; method_offset = 4096 })

abbrev class_probe : ProbeConfig
class_probe = record probe { fully_qualified_class_name = some (codes "a.B") }

abbrev file_probe : ProbeConfig
file_probe = record probe { file_paths = path_a ∷ path_b ∷ [] }

resolve_loop-resolved_example :
    resolve_loop offsets oat true (codes "system_server") (class_probe ∷ file_probe ∷ [])
    ≡ some (
        record { probe_config = class_probe; filename = codes "/c.so"; offset = pos 4096 }
        ∷ record { probe_config = file_probe; filename = path_b; offset = pos 64 }
        ∷ [])
resolve_loop-resolved_example = resolve_loop-resolved offsets oat true (codes "system_server") (
    resolved (by_class refl refl) (resolved (by_file refl (later refl (here refl refl))) none_left))

abbrev proc : Text → Text → ProcEntry
proc name cmdline = record { name = name; cmdline = some cmdline }

-- Digits as a number; anything else is no number.
abbrev parse_two : Text → Option ℤ
parse_two s = if text_eq s (codes "42") then some (pos 42) else none

hex_runs :
    (parse_hex (codes "0x00001A2b") ≡ pos 6699)
    × (parse_hex (codes "ffffffff") ≡ pos 2_147_483_647)
    × (parse_hex (codes "zz") ≡ pos 0)
unfolding parse_hex
hex_runs = (refl, refl, refl)

-- A reader that knows two lines.
abbrev parse_line : Text → Option OatEntry
parse_line line =
    if text_eq line (codes "A")
    then some (record { method = codes "void a()"; offset = codes "0x10" })
    else if text_eq line (codes "B")
    then some (record { method = codes "void b()"; offset = codes "0x20" })
    else none

offset_runs :
    get_method_offset_from_oatdump parse_line (λ f. codes "junk\nA\nB\n") path_a (codes "void b()")
    ≡ pos 32
unfolding get_method_offset_from_oatdump offset_in lines_of parse_hex
offset_runs = refl
