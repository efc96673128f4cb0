-- ===== src/BpfMap/Calls.antt =====
-- src/bpf/headers/include/bpf/BpfMap.h: the wrappers of the single calls on a map. A call returns an
-- `int`, sets `errno`, and leaves a value in the buffer that it was given.
pub mod Laws
mod Tests
use platform_packages_module.Prelude.{ℕ, Option, none, some, if◌then◌else◌, ℤ, is_zero}
use platform_packages_module.BpfMap.{Result, value, error, KernelMap}

pub record Answer (A : Type 0) : Type 0 where
  pub ret : ℤ
  pub errno : ℕ
  pub buffer : A

-- The calls on one map; `next_key` of no key is the first one. An update and a deletion leave a state.
pub record MapCalls (K : Type 0) (V : Type 0) : Type 1 where
  pub World : Type 0
  pub get_next_map_key : World → Option K → Answer K
  pub find_map_entry : World → K → Answer V
  pub write_to_map_entry : World → K → V → (flags : ℕ) → World × Answer (Unit {0})
  pub delete_map_entry : World → K → World × Answer (Unit {0})

-- A result for a call that is to return 0.
abbrev pub checked : {A : Type 0} → Answer A → Result A
checked a = if is_zero a.ret then value a.buffer else error a.errno

abbrev pub checked_void : Answer (Unit {0}) → Option ℕ
checked_void a = if is_zero a.ret then none else some a.errno

module _ {K V : Type 0} (calls : MapCalls K V) where
  -- `getFirstKey`
  unfoldable pub get_first_key : calls.World → Result K
  get_first_key w = checked (calls.get_next_map_key w none)

  -- `getNextKey`
  unfoldable pub get_next_key : calls.World → K → Result K
  get_next_key w k = checked (calls.get_next_map_key w (some k))

  -- `readValue`
  unfoldable pub read_value : calls.World → K → Result V
  read_value w k = checked (calls.find_map_entry w k)

  -- `writeValue`
  unfoldable pub write_value : calls.World → K → V → (flags : ℕ) → calls.World × Option ℕ
  write_value w k v flags =
      let (w1, answer) = calls.write_to_map_entry w k v flags in (w1, checked_void answer)

  -- `deleteValue`
  unfoldable pub delete_value : calls.World → K → calls.World × Option ℕ
  delete_value w k = let (w1, answer) = calls.delete_map_entry w k in (w1, checked_void answer)

  -- The operations that the loops over the map stand on.
  abbrev pub map_of_calls : KernelMap K V
  map_of_calls = record {
    World = calls.World;
    first_key = get_first_key;
    next_key = get_next_key;
    find = read_value;
    delete = delete_value;
  }
