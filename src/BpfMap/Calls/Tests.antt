-- ===== src/BpfMap/Calls/Tests.antt =====
-- The calls on a map of at most two entries.
use platform_packages_module.Prelude.{
  ℕ, ◌+◌, List, [], ◌∷◌, ◌++◌, ◌≡◌, Option, none, some, ◌==◌, if◌then◌else◌, pos, negsuc, arith,
  refl, subst,
}
use platform_packages_module.BpfMap.{enoent, failure, iterate_with_value}
use platform_packages_module.BpfMap.Calls.{Answer, MapCalls, map_of_calls}
use platform_packages_module.BpfMap.Calls.Laws.{
  Gives, GivesHead, IsMap, walk_entries, iterate_with_value-entries,
}

-- The entries 1 and 2, or what is left of them.
data Left : Type 0 where
  both second neither : Left

abbrev entries_of : Left → List (ℕ × ℕ)
entries_of both = (1, 101) ∷ (2, 102) ∷ []
entries_of second = (2, 102) ∷ []
entries_of neither = []

abbrev given : ℕ → Answer ℕ
given n = record { ret = pos 0; errno = 0; buffer = n }

abbrev missing : Answer ℕ
missing = record { ret = negsuc 0; errno = enoent; buffer = 0 }

abbrev done : Answer (Unit {0})
done = record { ret = pos 0; errno = 0; buffer = tt }

abbrev next_of : Left → Option ℕ → Answer ℕ
next_of both none = given 1
next_of both (some k) = if k == 1 then given 2 else missing
next_of second none = given 2
next_of second (some k) = missing
next_of neither k = missing

abbrev delete_of : Left → ℕ → Left
delete_of both k = if k == 1 then second else both
delete_of second k = if k == 2 then neither else second
delete_of neither k = neither

abbrev two_entries : MapCalls ℕ ℕ
two_entries = record {
  World = Left;
  get_next_map_key = next_of;
  find_map_entry = λ w k. given (k + 100);
  write_to_map_entry = λ w k v flags. (w, done);
  delete_map_entry = λ w k. (delete_of w k, done);
}

next_of-first : (w : Left) → GivesHead (next_of w none) (entries_of w)
next_of-first both = (refl, refl)
next_of-first second = (refl, refl)
next_of-first neither = (refl, refl)

next_of-next :
    (w : Left) (before : List (ℕ × ℕ)) (k v : ℕ) (after : List (ℕ × ℕ))
    → entries_of w ≡ before ++ ((k, v) ∷ after)
    → GivesHead (next_of w (some k)) after
next_of-next both [] k v after e =
    let key : k ≡ 1 = cc in
    let rest : (2, 102) ∷ [] ≡ after = cc in
    rw key (subst (λ (l : List (ℕ × ℕ)). GivesHead (given 2) l) rest (refl, refl))
next_of-next both (a ∷ []) k v after e =
    let key : k ≡ 2 = cc in
    let rest : ◌≡◌ {A = List (ℕ × ℕ)} [] after = cc in
    rw key (subst (λ (l : List (ℕ × ℕ)). GivesHead missing l) rest (refl, refl))
next_of-next both (a ∷ b ∷ []) k v after e = cc
next_of-next both (a ∷ b ∷ c ∷ before) k v after e = cc
next_of-next second [] k v after e =
    let rest : ◌≡◌ {A = List (ℕ × ℕ)} [] after = cc in
    subst (λ (l : List (ℕ × ℕ)). GivesHead missing l) rest (refl, refl)
next_of-next second (a ∷ []) k v after e = cc
next_of-next second (a ∷ b ∷ before) k v after e = cc
next_of-next neither [] k v after e = cc
next_of-next neither (a ∷ before) k v after e = cc

at_key : (k v n : ℕ) → k ≡ n → v ≡ n + 100 → Gives (given (k + 100)) v
at_key k v n e d = (refl, omega (arith, e, d))

found_in :
    (w : Left) (before : List (ℕ × ℕ)) (k v : ℕ) (after : List (ℕ × ℕ))
    → entries_of w ≡ before ++ ((k, v) ∷ after)
    → Gives (given (k + 100)) v
found_in both [] k v after e = at_key k v 1 (cc) (cc)
found_in both (a ∷ []) k v after e = at_key k v 2 (cc) (cc)
found_in both (a ∷ b ∷ []) k v after e = cc
found_in both (a ∷ b ∷ c ∷ before) k v after e = cc
found_in second [] k v after e = at_key k v 2 (cc) (cc)
found_in second (a ∷ []) k v after e = cc
found_in second (a ∷ b ∷ before) k v after e = cc
found_in neither [] k v after e = cc
found_in neither (a ∷ before) k v after e = cc

delete_of-first :
    (w : Left) (k v : ℕ) (rest : List (ℕ × ℕ))
    → entries_of w ≡ (k, v) ∷ rest
    → ((pos 0) ≡ pos 0) × (entries_of (delete_of w k) ≡ rest)
delete_of-first both k v rest e = (refl, ground (arith, e))
delete_of-first second k v rest e = (refl, ground (arith, e))
delete_of-first neither k v rest e = cc

two_entries-IsMap : IsMap two_entries
two_entries-IsMap = record {
  entries = entries_of;
  first = next_of-first;
  next = next_of-next;
  found = found_in;
  deleted = delete_of-first;
}

-- Sums the values, up to a limit.
abbrev add_value : ℕ → ℕ → ℕ → ℕ × Option ℕ
add_value k v s = (s + v, if s + v == 203 then some 7 else none)

iterate_with_value-entries_example :
    iterate_with_value (map_of_calls two_entries) 3 both add_value 0
    ≡ walk_entries add_value ((1, 101) ∷ (2, 102) ∷ []) 0
unfolding two_entries-IsMap
iterate_with_value-entries_example =
    iterate_with_value-entries two_entries two_entries-IsMap 3 both add_value 0 (omega arith)

walk_entries_run : walk_entries add_value ((1, 101) ∷ (2, 102) ∷ []) 0 ≡ (203, failure 7)
unfolding walk_entries
walk_entries_run = refl
