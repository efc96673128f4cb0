-- ===== src/Main/Laws.antt =====
-- What `main` does only under the guardrail, and when it fails.
use platform_packages_module.Prelude.{
  ◌≡◌, refl, inl, inr, List, [], ◌∷◌, Option, none, some, Bool, true, arith, All, Text, codes, ℤ,
  Bool-cases, Option-cases, ap,
}
use platform_packages_module.Config.{ProbeConfig, TaskConfig, UprobestatsConfig}
use platform_packages_module.LibBase.{LibBase}
use platform_packages_module.Guardrail.{is_allowed}
use platform_packages_module.Guardrail.Laws.{IsPermittedProbe, is_allowed_iff}
use platform_packages_module.Resolver.{
  ResolvedProbe, ResolvedTask, MethodOffsets, resolve_single_task, resolve_probe, resolve_loop,
  resolve_probes,
}
use platform_packages_module.Resolver.Laws.{resolve_single_task_iff}
use platform_packages_module.Main.{
  Device, skips_probe, opens, open_probes, run_task, run_config, main,
}

module _ (P : ProbeConfig → Type 0) where
  -- A property of the configured probes passes to the resolved ones.
  abbrev Keeps : List ResolvedProbe → Type 0
  Keeps = All (λ r. P r.probe_config)

  resolve_probe-config :
      (offsets : Text → Text → Text → List Text → Option MethodOffsets) (oat : Text → Text → ℤ)
      (api : Bool) (process : Text) (p : ProbeConfig) {r : ResolvedProbe}
      → resolve_probe offsets oat api process p ≡ some r
      → r.probe_config ≡ p
  unfolding resolve_probe
  resolve_probe-config offsets oat api process p h = ground arith

  resolve_loop-Keeps :
      (offsets : Text → Text → Text → List Text → Option MethodOffsets) (oat : Text → Text → ℤ)
      (api : Bool) (process : Text) (ps : List ProbeConfig) {rs : List ResolvedProbe}
      → All P ps
      → resolve_loop offsets oat api process ps ≡ some rs
      → Keeps rs
  unfolding resolve_loop
  resolve_loop-Keeps offsets oat api process [] {rs} h e = let q : [] ≡ rs = cc in rw (← q) tt
  resolve_loop-Keeps offsets oat api process (p ∷ ps) {rs} h e =
      elim (Option-cases (resolve_probe offsets oat api process p)) [
        | inl n ↦ absurd (none-ne-some (rw (n, resolve_loop) at e))
        | inr (r, f) ↦ elim (Option-cases (resolve_loop offsets oat api process ps)) [
          | inl n ↦ absurd (none-ne-some (rw (f, n, resolve_loop) at e))
          | inr (rs', g) ↦
              let q : some (r ∷ rs') ≡ some rs = rw (f, resolve_loop, g) at e in
              let q' : r ∷ rs' ≡ rs = cc in
              rw (← q') (
                rw (resolve_probe-config offsets oat api process p f) h.0,
                resolve_loop-Keeps offsets oat api process ps h.1 g,
              )
        ]
      ]
    where
      none-ne-some : (none ≡ some rs) → ⊥
      none-ne-some e' = cc

  resolve_probes-Keeps :
      (offsets : Text → Text → Text → List Text → Option MethodOffsets) (oat : Text → Text → ℤ)
      (api : Bool) (task : TaskConfig) (ps : List ProbeConfig) {rs : List ResolvedProbe}
      → task.probe_configs ≡ ps
      → All P ps
      → resolve_probes offsets oat api task ≡ some rs
      → Keeps rs
  unfolding resolve_probes
  resolve_probes-Keeps offsets oat api task [] {rs} c h e =
      absurd (none-ne-some (rw (c, resolve_probes) at e))
    where
      none-ne-some : (none ≡ some rs) → ⊥
      none-ne-some e' = cc
  resolve_probes-Keeps offsets oat api task (p ∷ ps) c h e =
      resolve_loop-Keeps offsets oat api _ (p ∷ ps) h (rw (c, resolve_probes) at e)

  open_probes-Keeps :
      (d : Device) (pid : ℤ) (rs : List ResolvedProbe) → Keeps rs → Keeps (open_probes d pid rs).1
  unfolding open_probes
  open_probes-Keeps d pid [] h = tt
  open_probes-Keeps d pid (r ∷ rs) h = elim (Bool-cases (skips_probe d r)) [
    | inl skip ↦ rw skip (open_probes-Keeps d pid rs h.1)
    | inr go ↦ elim (Bool-cases (opens d pid r)) [
      | inl fine ↦ rw (go, fine) (h.0, open_probes-Keeps d pid rs h.1)
      | inr bad ↦ rw (go, bad) (h.0, tt)
    ]
  ]

  run_task-Keeps :
      (d : Device) (task : ResolvedTask) (rs : List ResolvedProbe)
      → Keeps rs
      → Keeps (run_task d task rs).tried
  unfolding run_task
  run_task-Keeps d task rs h = elim (Bool-cases (open_probes d task.pid rs).0) [
    | inl fine ↦ rw fine (open_probes-Keeps d task.pid rs h)
    | inr bad ↦ rw bad (open_probes-Keeps d task.pid rs h)
  ]

-- What holds of every configured task holds of the resolved one.
resolved_task :
    (Q : TaskConfig → Type 0) (get_pid : Text → ℤ) (ts : List TaskConfig) {task : ResolvedTask}
    → All Q ts
    → resolve_single_task get_pid (record { tasks = ts }) ≡ some task
    → Q task.task_config
unfolding resolve_single_task
resolved_task Q get_pid [] h e = absurd (cc e)
resolved_task Q get_pid (t ∷ ts) {task} h e =
    let (run, q) = (resolve_single_task_iff get_pid t ts task).0 e in
    let c : task.task_config ≡ t = ap (λ (r : ResolvedTask). r.task_config) q in rw c h.0

module _ (base : LibBase) (d : Device) (user : d.build_type ≡ codes "user") where
  abbrev pub Permitted : ResolvedProbe → Type 0
  Permitted r = IsPermittedProbe base d.executable_method_file_offsets r.probe_config

  permitted_tasks :
      (config : UprobestatsConfig)
      → is_allowed base config d.build_type d.executable_method_file_offsets ≡ true
      → All
          (λ t. All (IsPermittedProbe base d.executable_method_file_offsets) t.probe_configs)
          config.tasks
  permitted_tasks config h =
      elim ((is_allowed_iff base config d.build_type d.executable_method_file_offsets).0 h) [
        | inl other ↦ absurd (other user)
        | inr fine ↦ fine
      ]

  run_config-Permitted :
      (config : UprobestatsConfig) → All Permitted (run_config base d config).tried
  unfolding run_config
  run_config-Permitted config =
      elim (Bool-cases (is_allowed base config d.build_type d.executable_method_file_offsets)) [
        | inr denied ↦ rw denied tt
        | inl fine ↦ elim (Option-cases (resolve_single_task d.get_pid config)) [
          | inl n ↦ rw (fine, n, run_config) tt
          | inr (task, t) ↦
              elim (Option-cases (
                resolve_probes d.offsets d.oat d.executable_method_file_offsets task.task_config)) [
                  | inl n ↦ rw (fine, t, run_config, n) tt
                  | inr (rs, p) ↦
                      rw (fine, t, run_config, p)
                        (run_task-Keeps (IsPermittedProbe base d.executable_method_file_offsets) d
                          task rs
                          (resolve_probes-Keeps
                            (IsPermittedProbe base d.executable_method_file_offsets) d.offsets d.oat
                            d.executable_method_file_offsets task.task_config
                            task.task_config.probe_configs refl
                            (resolved_task
                              (λ t.
                                All (IsPermittedProbe base d.executable_method_file_offsets)
                                  t.probe_configs)
                              d.get_pid config.tasks (permitted_tasks config fine) t)
                            p))
                ]
        ]
      ]

  -- On a user build `main` tries to place a probe only on a permitted method, whatever the
  -- configuration holds and whatever the other components answer.
  pub main-Permitted : All Permitted (main base d).tried
  unfolding main
  main-Permitted = elim (Bool-cases d.enable_uprobestats) [
    | inr off ↦ rw off tt
    | inl on ↦ elim (Option-cases d.config) [
      | inl n ↦ rw (on, n, main) tt
      | inr (config, c) ↦ rw (on, c, main) (run_config-Permitted config)
    ]
  ]
