-- ===== src/Resolver.antt =====
-- ConfigResolver.cpp: from a configuration to the task and the probes to place. What it asks for,
-- process ids and method offsets, comes as functions.
pub mod Pid
pub mod Oat
pub mod Laws
pub mod Tests
use platform_packages_module.Prelude.{
  ℕ, List, [], ◌∷◌, Option, none, some, Bool, true, false, not, ◌&&◌, if◌then◌else◌, is_some, Text,
  codes, text_eq, ℤ, pos, negsuc, is_negative, is_zero, to_int32,
}
use platform_packages_module.Config.{ProbeConfig, TaskConfig, UprobestatsConfig, text_of, int_of}

pub record ResolvedProbe : Type 0 where
  pub probe_config : ProbeConfig
  pub filename : Text
  pub offset : ℤ

pub record ResolvedTask : Type 0 where
  pub task_config : TaskConfig
  pub pid : ℤ

-- `ExecutableMethodFileOffsets`, as far as it is used.
pub record MethodOffsets : Type 0 where
  pub container_path : Text
  pub method_offset : ℕ

-- `readConfig`; reading a file and the protobuf parser are given.
unfoldable pub read_config :
    (read_file : Text → Option Text) (parse : Text → Option UprobestatsConfig)
    → (config_file_path : Text) → Option UprobestatsConfig
read_config read_file parse config_file_path = elim (read_file config_file_path) [
  | none ↦ none
  | some config_str ↦ parse config_str
]

-- The guards on the first task, in their order.
resolve_task : (Text → ℤ) → TaskConfig → Option ResolvedTask
resolve_task get_pid task =
    if not (is_some task.duration_seconds)
    then none
    else if not (is_some task.target_process_name)
    then none
    else if not (text_eq (text_of task.target_process_name) (codes "system_server"))
    then none
    else if is_negative (get_pid (text_of task.target_process_name))
    then none
    else some (record { task_config = task; pid = get_pid (text_of task.target_process_name) })

-- A duration that is not positive, and tasks after the first, are logged and otherwise accepted.
unfoldable pub resolve_single_task : (Text → ℤ) → UprobestatsConfig → Option ResolvedTask
unfolding resolve_task
resolve_single_task get_pid config = elim config.tasks [
  | [] ↦ none
  | task ∷ rest ↦ resolve_task get_pid task
]

abbrev pub is_positive : ℤ → Bool
is_positive n = not (is_negative n) && not (is_zero n)

-- The loop over the file paths: the offset that was read last, and the path if it is positive.
unfoldable pub find_offset : (Text → Text → ℤ) → Text → ℤ → List Text → ℤ × Text
find_offset oat signature offset [] = (offset, [])
find_offset oat signature offset (path ∷ paths) =
    let found = oat path signature in
    let rest = find_offset oat signature found paths in
    if is_positive found then (found, path) else rest

module _ (offsets : Text → Text → Text → List Text → Option MethodOffsets) (oat : Text → Text → ℤ)
    (api_enabled : Bool) (process_name : Text) where
  -- The body of the loop over the probes; `none` is its early return.
  unfoldable pub resolve_probe : ProbeConfig → Option ResolvedProbe
  unfolding find_offset
  resolve_probe p =
      if api_enabled && is_some p.fully_qualified_class_name
      then elim (offsets process_name (text_of p.fully_qualified_class_name) (text_of p.method_name)
          p.fully_qualified_parameters) [
            | none ↦ none
            | some o ↦ some (record {
              probe_config = p;
              filename = o.container_path;
              offset = to_int32 o.method_offset;
            })
          ]
      else (let (offset, path) =
            find_offset oat (text_of p.method_signature) (pos 0) p.file_paths in
          if is_zero offset
          then none
          else some (record { probe_config = p; filename = path; offset = offset }))

  unfoldable pub resolve_loop : List ProbeConfig → Option (List ResolvedProbe)
  resolve_loop [] = some []
  resolve_loop (p ∷ ps) = elim (resolve_probe p) [
    | none ↦ none
    | some r ↦ elim (resolve_loop ps) [ none ↦ none | some rs ↦ some (r ∷ rs) ]
  ]

-- `resolveProbes`
unfoldable pub resolve_probes :
    (offsets : Text → Text → Text → List Text → Option MethodOffsets) (oat : Text → Text → ℤ)
    (api_enabled : Bool)
    → TaskConfig
    → Option (List ResolvedProbe)
resolve_probes offsets oat api_enabled task = elim task.probe_configs [
  | [] ↦ none
  | p ∷ ps ↦ resolve_loop offsets oat api_enabled (text_of task.target_process_name) (p ∷ ps)
]
