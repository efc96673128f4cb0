-- ===== src/Instrumentation/Laws.antt =====
-- The library's objects that live after a request for offsets, and its result.
use platform_packages_module.Prelude.{
  ℕ, List, ◌∷◌, ◌≡◌, none, some, Text, arith, Option-cases, inl, inr,
}
use platform_packages_module.Instrumentation.{
  Manager, read_offsets, ask_offsets, get_executable_method_file_offsets,
}

-- How many objects live: target processes, method descriptors and offsets.
pub record Living : Type 0 where
  pub processes : List ℕ
  pub methods : List ℕ
  pub offsets : List ℕ

-- The library as it is documented: what is created lives until it is destroyed, a request creates
-- offsets exactly if it stores their address, and opening the library creates none of these.
pub record IsManager (m : Manager) : Type 0 where
  pub living : m.World → Living
  pub opening : (w : m.World) → living (m.dlopen w).0 ≡ living w
  pub process_created :
      (w : m.World) (uid pid : ℕ) (name : Text)
      → living (m.target_process_create w uid pid name).0 ≡ record (living w) {
        processes = (m.target_process_create w uid pid name).1 ∷ (living w).processes;
      }
  pub method_created :
      (w : m.World) (fqcn name : Text) (parameters : List Text)
      → living (m.method_descriptor_create w fqcn name parameters).0 ≡ record (living w) {
        methods = (m.method_descriptor_create w fqcn name parameters).1 ∷ (living w).methods;
      }
  pub requested :
      (w : m.World) (process method : ℕ)
      → living (m.request w process method).0 ≡ record (living w) {
        offsets = elim (m.request w process method).1.1 [
          | none ↦ (living w).offsets
          | some o ↦ o ∷ (living w).offsets
        ];
      }
  pub process_destroyed :
      (w : m.World) (process : ℕ) (others : List ℕ)
      → (living w).processes ≡ process ∷ others
      → living (m.target_process_destroy w process) ≡ record (living w) { processes = others }
  pub method_destroyed :
      (w : m.World) (method : ℕ) (others : List ℕ)
      → (living w).methods ≡ method ∷ others
      → living (m.method_descriptor_destroy w method) ≡ record (living w) { methods = others }
  pub offsets_destroyed :
      (w : m.World) (o : ℕ) (others : List ℕ)
      → (living w).offsets ≡ o ∷ others
      → living (m.offsets_destroy w o) ≡ record (living w) { offsets = others }

module _ (m : Manager) (d : IsManager m) where
  ask_offsets-living :
      (w : m.World) (process_name fqcn method_name : Text) (parameters : List Text)
      → d.living (ask_offsets m w process_name fqcn method_name parameters).0 ≡ d.living w
  unfolding ask_offsets read_offsets
  ask_offsets-living w process_name fqcn method_name parameters =
      let (w1, process) = m.target_process_create w 0 0 process_name in
      let (w2, method) = m.method_descriptor_create w1 fqcn method_name parameters in
      let (w3, (result, offsets)) = m.request w2 process method in
      let w4 = m.target_process_destroy w3 process in
      let w5 = m.method_descriptor_destroy w4 method in
      elim (Option-cases offsets) [
        | inl e ↦ ground (
          arith,
          e,
          d.process_created w 0 0 process_name,
          d.method_created w1 fqcn method_name parameters,
          d.requested w2 process method,
          d.process_destroyed w3 process (d.living w).processes,
          d.method_destroyed w4 method (d.living w).methods,
        )
        | inr (o, e) ↦ ground (
          arith,
          e,
          d.process_created w 0 0 process_name,
          d.method_created w1 fqcn method_name parameters,
          d.requested w2 process method,
          d.process_destroyed w3 process (d.living w).processes,
          d.method_destroyed w4 method (d.living w).methods,
          d.offsets_destroyed w5 o (d.living w).offsets,
        )
      ]

  -- Asking for a method's offsets leaves the library's target processes, method descriptors and
  -- offsets as they were, whether it has a result or not, if the library behaves as documented: all
  -- that is created on the way is destroyed.
  pub get_executable_method_file_offsets-living :
      (w : m.World) (process_name fqcn method_name : Text) (parameters : List Text)
      → d.living (get_executable_method_file_offsets m w process_name fqcn method_name parameters).0
        ≡ d.living w
  unfolding get_executable_method_file_offsets
  get_executable_method_file_offsets-living w process_name fqcn method_name parameters = ground (
    arith,
    d.opening w,
    ask_offsets-living (m.dlopen w).0 process_name fqcn method_name parameters,
  )
