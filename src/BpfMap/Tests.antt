-- ===== src/BpfMap/Tests.antt =====
-- The theorems at a map of two keys.
use platform_packages_module.Prelude.{
  ℕ, ◌⊎◌, ◌↔◌, true, pos, ◌+◌, List, [], ◌∷◌, ◌++◌, ◌≡◌, Option, none, some, ◌==◌, if◌then◌else◌,
  refl, arith,
}
use platform_packages_module.BpfMap.{Result, value, error, enoent, KernelMap, success, clear}
use platform_packages_module.BpfMap.Laws.{head, IsKeyed, clear-empties}
use platform_packages_module.Kernel.Version.{kver, is_at_least_kernel_version}
use platform_packages_module.Kernel.Calls
use platform_packages_module.Kernel.Calls.{Info}
use platform_packages_module.BpfMap.Open.{init_map, ready, aborted}
use platform_packages_module.BpfMap.Open.Laws.{Fits, init_map_iff}

-- The keys 1 and 2, or what is left of them.
data Left : Type 0 where
  both second neither : Left

abbrev keys_of : Left → List ℕ
keys_of both = 1 ∷ 2 ∷ []
keys_of second = 2 ∷ []
keys_of neither = []

abbrev next_of : Left → ℕ → Result ℕ
next_of both k = if k == 1 then value 2 else error enoent
next_of second k = error enoent
next_of neither k = error enoent

abbrev delete_of : Left → ℕ → Left × Option ℕ
delete_of both k = if k == 1 then (second, none) else (both, some enoent)
delete_of second k = if k == 2 then (neither, none) else (second, some enoent)
delete_of neither k = (neither, some enoent)

abbrev two_keys : KernelMap ℕ ℕ
two_keys = record {
  World = Left;
  first_key = λ w. head (keys_of w);
  next_key = next_of;
  find = λ w k. value (k + 100);
  delete = delete_of;
}

next_of-head :
    (w : Left) (before : List ℕ) (k : ℕ) (after : List ℕ)
    → keys_of w ≡ before ++ (k ∷ after)
    → next_of w k ≡ head after
next_of-head both [] k after e = ground (arith, e)
next_of-head both (a ∷ []) k after e = ground (arith, e)
next_of-head both (a ∷ b ∷ []) k after e = ground (arith, e)
next_of-head both (a ∷ b ∷ c ∷ before) k after e = ground (arith, e)
next_of-head second [] k after e = ground (arith, e)
next_of-head second (a ∷ []) k after e = ground (arith, e)
next_of-head second (a ∷ b ∷ before) k after e = ground (arith, e)
next_of-head neither [] k after e = ground (arith, e)
next_of-head neither (a ∷ before) k after e = ground (arith, e)

delete_of-keys :
    (w : Left) (k : ℕ) (ks : List ℕ)
    → keys_of w ≡ k ∷ ks
    → ((delete_of w k).1 ≡ none) × (keys_of (delete_of w k).0 ≡ ks)
delete_of-keys both k ks e = ground (arith, e)
delete_of-keys second k ks e = ground (arith, e)
delete_of-keys neither k ks e = ground (arith, e)

abbrev keyed : IsKeyed two_keys
keyed = record { keys = keys_of; first = λ w. refl; next = next_of-head; deleted = delete_of-keys }

-- Sums the keys.
abbrev add_key : ℕ → ℕ → ℕ × Option ℕ
add_key k s = (s + k, none)

clear-empties_example :
    ((clear two_keys 3 both).1 ≡ success) × (keys_of (clear two_keys 3 both).0 ≡ [])
clear-empties_example = clear-empties two_keys keyed 3 both (omega arith)

-- A map of keys of 16 bytes and values of 40, without flags.
abbrev map_info : ℕ → Info
map_info fd = record {
  ret = pos 0;
  errno = 0;
  info_len = 80;
  number = λ offset. if offset == 8 then 16 else if offset == 12 then 40 else 0;
}

abbrev opened_map : Calls.Result
opened_map = record { ret = pos 7; errno = 0 }

init_map_iff_example :
    ((init_map 16 40 (kver 6 1 57) true opened_map map_info ≡ ready 7)
      ↔ Fits 16 40 true (map_info 7))
    × ((init_map 16 40 (kver 6 1 57) true opened_map map_info ≡ ready 7)
        ⊎ (init_map 16 40 (kver 6 1 57) true opened_map map_info ≡ aborted))
unfolding kver is_at_least_kernel_version
init_map_iff_example = init_map_iff 16 40 (kver 6 1 57) true opened_map map_info 7 refl refl
