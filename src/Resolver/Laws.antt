-- ===== src/Resolver/Laws.antt =====
-- What is resolved, on every path.
use platform_packages_module.Prelude.{
  ◌≡◌, ◌↔◌, refl, List, [], ◌∷◌, Option, none, some, Bool, true, false, arith, ◌&&◌, if◌then◌else◌,
  is_some, Text, codes, text_eq, text_eq_iff, ℤ, pos, negsuc, is_negative, is_zero, Bool-cases, inl,
  inr, ap, sym, ◌∙◌, to_int32,
}
use platform_packages_module.Config.{ProbeConfig, TaskConfig, text_of}
use platform_packages_module.Resolver.{
  ResolvedProbe, ResolvedTask, MethodOffsets, resolve_task, resolve_single_task, is_positive,
  find_offset, resolve_probe, resolve_loop,
}

-- A task that the program accepts: it has some duration, and its process is a running
-- system_server.
pub record IsRunnable (get_pid : Text → ℤ) (task : TaskConfig) : Type 0 where
  pub duration : is_some task.duration_seconds ≡ true
  pub process : task.target_process_name ≡ some (codes "system_server")
  pub running : is_negative (get_pid (codes "system_server")) ≡ false

system_server_name :
    (o : Option Text)
    → is_some o ≡ true
    → text_of o ≡ codes "system_server"
    → o ≡ some (codes "system_server")
system_server_name none h e = cc
system_server_name (some s) h e = ap some e

abbrev pub server : Text
server = codes "system_server"

module _ (get_pid : Text → ℤ) (task : TaskConfig) where
  name_of :
      text_eq (text_of task.target_process_name) server ≡ true
      → text_of task.target_process_name ≡ server
  name_of = (text_eq_iff (text_of task.target_process_name) server).0

  resolve_task-IsRunnable :
      (out : ResolvedTask)
      → resolve_task get_pid task ≡ some out
      → IsRunnable get_pid task × (out ≡ record { task_config = task; pid = get_pid server })
  unfolding resolve_task
  resolve_task-IsRunnable out h = elim (Bool-cases (is_some task.duration_seconds)) [
    | inr a ↦ absurd (none-ne-some (rw a at h))
    | inl a ↦ elim (Bool-cases (is_some task.target_process_name)) [
      | inr b ↦ absurd (none-ne-some (rw (a, b) at h))
      | inl b ↦ elim (Bool-cases (text_eq (text_of task.target_process_name) server)) [
        | inr c ↦ absurd (none-ne-some (rw (a, b, c) at h))
        | inl c ↦ accepted a b (name_of c) (rw (a, b, c) at h)
      ]
    ]
  ]
    where
      none-ne-some : (none ≡ some out) → ⊥
      none-ne-some e = cc

      unwrap : {r : ResolvedTask} → some r ≡ some out → out ≡ r
      unwrap e = cc

      accepted :
          is_some task.duration_seconds ≡ true
          → is_some task.target_process_name ≡ true
          → text_of task.target_process_name ≡ server
          → (if is_negative (get_pid (text_of task.target_process_name))
              then none
              else some
                  (record { task_config = task; pid = get_pid (text_of task.target_process_name) }))
            ≡ some out
          → IsRunnable get_pid task × (out ≡ record { task_config = task; pid = get_pid server })
      accepted a b e h' = elim (Bool-cases (is_negative (get_pid server))) [
        | inl n ↦ absurd (none-ne-some (rw (e, n) at h'))
        | inr n ↦ (
          record {
            duration = a;
            process = system_server_name task.target_process_name b e;
            running = n;
          },
          unwrap (rw (e, n) at h'),
        )
      ]

  runnable-resolve_task :
      IsRunnable get_pid task
      → resolve_task get_pid task ≡ some (record { task_config = task; pid = get_pid server })
  unfolding resolve_task
  runnable-resolve_task r = rw (r.duration, r.process, r.running)

  -- The first task is the one that counts: it is resolved, to itself and to the id of
  -- system_server, exactly when it names a duration (of any sign), its target process is
  -- system_server, and that process is found.
  pub resolve_single_task_iff :
      (rest : List TaskConfig) (out : ResolvedTask)
      → (resolve_single_task get_pid (record { tasks = task ∷ rest }) ≡ some out) ↔ (
          IsRunnable get_pid task
          × (out ≡ record { task_config = task; pid = get_pid (codes "system_server") }))
  unfolding resolve_single_task
  resolve_single_task_iff rest out =
      (λ h. resolve_task-IsRunnable out h, λ (r, e). runnable-resolve_task r ∙ ap some (sym e))

-- Any duration is accepted, also one that is zero or negative, which the program reports as an error
-- on the way.
resolve_any_duration :
    (get_pid : Text → ℤ) (seconds : ℤ) (task : TaskConfig) (rest : List TaskConfig)
    → task.duration_seconds ≡ some seconds
    → task.target_process_name ≡ some (codes "system_server")
    → is_negative (get_pid (codes "system_server")) ≡ false
    → resolve_single_task get_pid (record { tasks = task ∷ rest })
      ≡ some (record { task_config = task; pid = get_pid (codes "system_server") })
resolve_any_duration get_pid seconds task rest d t p =
    (resolve_single_task_iff get_pid task rest _).1
      (record { duration = ap is_some d; process = t; running = p }, refl)

-- A path's offset is the first positive one among the paths.
pub data IsFirstOffset (oat : Text → Text → ℤ) (signature : Text)
    : List Text → Text → ℤ → Type 0 where
  here :
      {path : Text} {paths : List Text} {o : ℤ}
      → oat path signature ≡ o
      → is_positive o ≡ true
      → IsFirstOffset oat signature (path ∷ paths) path o
  later :
      {path found : Text} {paths : List Text} {o : ℤ}
      → is_positive (oat path signature) ≡ false
      → IsFirstOffset oat signature paths found o
      → IsFirstOffset oat signature (path ∷ paths) found o

module _ (oat : Text → Text → ℤ) (signature : Text) where
  -- If some file has a positive offset for the method, the search over the file paths ends with the
  -- first such file and its offset.
  pub find_offset_first :
      {paths : List Text} {path : Text} {o : ℤ} (start : ℤ)
      → IsFirstOffset oat signature paths path o
      → find_offset oat signature start paths ≡ (o, path)
  unfolding find_offset
  find_offset_first start (here e p) = rw (e, p)
  find_offset_first start (later {path} n r) = rw n (find_offset_first (oat path signature) r)

-- What a probe resolves to: the method offsets of its class if it names one and they are enabled,
-- else the first of its files that has the method.
pub data IsResolved (offsets : Text → Text → Text → List Text → Option MethodOffsets)
    (oat : Text → Text → ℤ) (api : Bool) (process : Text) (p : ProbeConfig)
    : ResolvedProbe → Type 0 where
  by_class :
      {o : MethodOffsets}
      → (api && is_some p.fully_qualified_class_name) ≡ true
      → offsets process
          (text_of p.fully_qualified_class_name)
          (text_of p.method_name)
          p.fully_qualified_parameters
        ≡ some o
      → IsResolved offsets oat api process p (record {
        probe_config = p;
        filename = o.container_path;
        offset = to_int32 o.method_offset;
      })
  by_file :
      {path : Text} {o : ℤ}
      → (api && is_some p.fully_qualified_class_name) ≡ false
      → IsFirstOffset oat (text_of p.method_signature) p.file_paths path o
      → IsResolved offsets oat api process p
          (record { probe_config = p; filename = path; offset = o })

pub data AllResolved (offsets : Text → Text → Text → List Text → Option MethodOffsets)
    (oat : Text → Text → ℤ) (api : Bool) (process : Text)
    : List ProbeConfig → List ResolvedProbe → Type 0 where
  none_left : AllResolved offsets oat api process [] []
  resolved :
      {p : ProbeConfig} {ps : List ProbeConfig} {r : ResolvedProbe} {rs : List ResolvedProbe}
      → IsResolved offsets oat api process p r
      → AllResolved offsets oat api process ps rs
      → AllResolved offsets oat api process (p ∷ ps) (r ∷ rs)

positive-ne-zero : (o : ℤ) → is_positive o ≡ true → is_zero o ≡ false
positive-ne-zero (pos n) h = ground arith
positive-ne-zero (negsuc n) h = refl

positive_of_first :
    {oat : Text → Text → ℤ} {signature : Text} {paths : List Text} {path : Text} {o : ℤ}
    → IsFirstOffset oat signature paths path o
    → is_positive o ≡ true
positive_of_first (here e p) = p
positive_of_first (later n r) = positive_of_first r

module _ (offsets : Text → Text → Text → List Text → Option MethodOffsets) (oat : Text → Text → ℤ)
    (api : Bool) (process : Text) where
  resolve_probe-resolved :
      {p : ProbeConfig} {r : ResolvedProbe}
      → IsResolved offsets oat api process p r
      → resolve_probe offsets oat api process p ≡ some r
  unfolding resolve_probe
  resolve_probe-resolved (by_class a e) = rw (a, e, resolve_probe)
  resolve_probe-resolved {p} (by_file {path} {o} a f) = rw (
    a,
    find_offset_first oat (text_of p.method_signature) (pos 0) f,
    positive-ne-zero o (positive_of_first f),
  )

  -- If each probe of a task can be resolved, by its class or by its files, the loop resolves them
  -- all, in their order.
  pub resolve_loop-resolved :
      {ps : List ProbeConfig} {rs : List ResolvedProbe}
      → AllResolved offsets oat api process ps rs
      → resolve_loop offsets oat api process ps ≡ some rs
  unfolding resolve_loop
  resolve_loop-resolved none_left = refl
  resolve_loop-resolved (resolved r rs) =
      rw (resolve_probe-resolved r, resolve_loop, resolve_loop-resolved rs)
