-- ===== src/Instrumentation.antt =====
-- DynamicInstrumentationManager.cpp: the offsets of a method, asked from the platform's library.
pub mod Laws
mod Tests
use platform_packages_module.Prelude.{
  ℕ, List, [], ◌∷◌, ◌++◌, Option, none, some, Bool, true, false, if◌then◌else◌, Text, codes, ℤ, u64,
}

-- `ExecutableMethodFileOffsets`
pub record ExecutableMethodFileOffsets : Type 0 where
  pub container_path : Text
  pub container_offset : ℕ
  pub method_offset : ℕ

-- The library's objects: target processes and method descriptors by their addresses, and offsets,
-- for which 0 is the null pointer. A request stores an address of offsets through a pointer, or
-- leaves it null, and answers a code.
pub record Manager : Type 1 where
  pub World : Type 0
  pub dlopen : World → World × Bool
  pub dlsym : World → Text → Bool
  pub target_process_create : World → (uid pid : ℕ) → Text → World × ℕ
  pub target_process_destroy : World → ℕ → World
  pub method_descriptor_create : World → Text → Text → List Text → World × ℕ
  pub method_descriptor_destroy : World → ℕ → World
  pub request : World → (process method : ℕ) → World × (ℤ × Option ℕ)
  pub container_path : World → ℕ → Text
  pub container_offset : World → ℕ → ℕ
  pub method_offset : World → ℕ → ℕ
  pub offsets_destroy : World → ℕ → World

-- How the function ends: by a failed assertion (in a build without assertions the null function
-- would be called), or with a result.
pub data Ended : Type 0 where
  asserted : Ended
  returned : Option ExecutableMethodFileOffsets → Ended

-- The functions that are looked up, in their order.
abbrev pub lib_functions : List Text
lib_functions =
    codes "ADynamicInstrumentationManager_TargetProcess_create"
    ∷ codes "ADynamicInstrumentationManager_TargetProcess_destroy"
    ∷ codes "ADynamicInstrumentationManager_MethodDescriptor_create"
    ∷ codes "ADynamicInstrumentationManager_MethodDescriptor_destroy"
    ∷ codes "ADynamicInstrumentationManager_getExecutableMethodFileOffsets"
    ∷ codes "ADynamicInstrumentationManager_ExecutableMethodFileOffsets_destroy"
    ∷ codes "ADynamicInstrumentationManager_ExecutableMethodFileOffsets_getContainerPath"
    ∷ codes "ADynamicInstrumentationManager_ExecutableMethodFileOffsets_getContainerOffset"
    ∷ codes "ADynamicInstrumentationManager_ExecutableMethodFileOffsets_getMethodOffset"
    ∷ []

module _ (m : Manager) where
  -- The calls of `getLibFunction`, one after another: false for an assertion that fails.
  unfoldable pub get_lib_functions : m.World → List Text → Bool
  get_lib_functions w [] = true
  get_lib_functions w (name ∷ names) = if m.dlsym w name then get_lib_functions w names else false

  -- The result that is read from the offsets, which are destroyed then.
  unfoldable pub read_offsets : m.World → Option ℕ → m.World × Option ExecutableMethodFileOffsets
  read_offsets w none = (w, none)
  read_offsets w (some offsets) = (
    m.offsets_destroy w offsets,
    some (record {
      container_path = m.container_path w offsets;
      container_offset = u64 (m.container_offset w offsets);
      method_offset = u64 (m.method_offset w offsets);
    }),
  )

  -- The part after the functions are found. The code that a request answers is only logged.
  unfoldable pub ask_offsets :
      m.World
      → (process_name fqcn method_name : Text) → List Text
      → m.World × Option ExecutableMethodFileOffsets
  ask_offsets w process_name fqcn method_name fq_parameters =
      let (w1, process) = m.target_process_create w 0 0 process_name in
      let (w2, method) = m.method_descriptor_create w1 fqcn method_name fq_parameters in
      let (w3, (result, offsets)) = m.request w2 process method in
      let w4 = m.target_process_destroy w3 process in
      let w5 = m.method_descriptor_destroy w4 method in read_offsets w5 offsets

  -- `getExecutableMethodFileOffsets`
  unfoldable pub get_executable_method_file_offsets :
      m.World → (process_name fqcn method_name : Text) → List Text → m.World × Ended
  get_executable_method_file_offsets w process_name fqcn method_name fq_parameters =
      let (w1, opened) = m.dlopen w in
      let (w2, offsets) = ask_offsets w1 process_name fqcn method_name fq_parameters in
      if opened
      then (if get_lib_functions w1 lib_functions then (w2, returned offsets) else (w1, asserted))
      else (w1, returned none)
