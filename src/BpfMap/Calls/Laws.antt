-- ===== src/BpfMap/Calls/Laws.antt =====
-- Iteration over the calls on a kernel map hands over its entries.
use platform_packages_module.Prelude.{
  ℕ, suc, ◌<◌, List, [], ◌∷◌, ◌++◌, ◌≡◌, Option, none, some, length, arith, refl, ◌∙◌, ap, sym,
  append_assoc, pos, is_zero, false,
}
use platform_packages_module.BpfMap.{
  value, enoent, Outcome, success, failure, with_value, iterate_with_value,
}
use platform_packages_module.BpfMap.Laws.{head, IsKeyed, walk, iterate-walk}
use platform_packages_module.BpfMap.Calls.{
  Answer, MapCalls, checked, get_first_key, get_next_key, read_value, delete_value, map_of_calls,
}

-- A call returns 0, with a value in its buffer; or another number, and ENOENT.
abbrev pub Gives : {A : Type 0} → Answer A → A → Type 0
Gives answer a = (answer.ret ≡ pos 0) × (answer.buffer ≡ a)

abbrev pub IsMissing : {A : Type 0} → Answer A → Type 0
IsMissing answer = (is_zero answer.ret ≡ false) × (answer.errno ≡ enoent)

abbrev pub GivesHead : {K V : Type 0} → Answer K → List (K × V) → Type 0
GivesHead answer [] = IsMissing answer
GivesHead answer ((k, v) ∷ rest) = Gives answer k

-- The documented behaviour of a map that nobody else writes to: its entries stand in some order,
-- which the keys follow; a key is found; and the deletion of the first entry leaves the others.
pub record IsMap {K V : Type 0} (calls : MapCalls K V) : Type 0 where
  pub entries : calls.World → List (K × V)
  pub first : (w : calls.World) → GivesHead (calls.get_next_map_key w none) (entries w)
  pub next :
      (w : calls.World) (before : List (K × V)) (k : K) (v : V) (after : List (K × V))
      → entries w ≡ before ++ ((k, v) ∷ after)
      → GivesHead (calls.get_next_map_key w (some k)) after
  pub found :
      (w : calls.World) (before : List (K × V)) (k : K) (v : V) (after : List (K × V))
      → entries w ≡ before ++ ((k, v) ∷ after)
      → Gives (calls.find_map_entry w k) v
  pub deleted :
      (w : calls.World) (k : K) (v : V) (rest : List (K × V))
      → entries w ≡ (k, v) ∷ rest
      → ((calls.delete_map_entry w k).1.ret ≡ pos 0)
        × (entries (calls.delete_map_entry w k).0 ≡ rest)

abbrev pub keys_of : {K V : Type 0} → List (K × V) → List K
keys_of [] = []
keys_of ((k, v) ∷ rest) = k ∷ keys_of rest

-- A filter called on each of some entries in turn, up to the first error.
unfoldable pub walk_entries :
    {K V S : Type 0} → (K → V → S → S × Option ℕ) → List (K × V) → S → S × Outcome
walk_entries filter [] s = (s, success)
walk_entries filter ((k, v) ∷ rest) s =
    let (s1, status) = filter k v s in
    let others = walk_entries filter rest s1 in
    elim status [ some err ↦ (s1, failure err) | none ↦ others ]

-- Entries whose keys start with a key.
first_keys :
    {K V : Type 0} (l : List (K × V)) (k : K) (after : List K)
    → keys_of l ≡ k ∷ after
    → (v : V) × (later : List (K × V)) × (l ≡ (k, v) ∷ later) × (keys_of later ≡ after)
first_keys [] k after e = cc
first_keys {K} {V} ((j, v) ∷ l) k after e =
    let same : j ≡ k = cc in (v, l, ap (λ (i : K). (i, v) ∷ l) same, cc)

-- Entries whose keys are split at a key.
split_keys :
    {K V : Type 0} (l : List (K × V)) (before : List K) (k : K) (after : List K)
    → keys_of l ≡ before ++ (k ∷ after)
    → (earlier : List (K × V)) × (v : V) × (later : List (K × V)) × (l
        ≡ earlier ++ ((k, v) ∷ later))
      × (keys_of later ≡ after)
split_keys [] [] k after e = cc
split_keys [] (b ∷ before) k after e = cc
split_keys ((j, v) ∷ l) [] k after e =
    let (u, later, split, keys) = first_keys ((j, v) ∷ l) k after e in ([], u, later, split, keys)
split_keys {K} {V} ((j, v) ∷ l) (b ∷ before) k after e =
    let (earlier, u, later, split, keys) = split_keys l before k after (cc) in
    ((j, v) ∷ earlier, u, later, ap (λ (t : List (K × V)). (j, v) ∷ t) split, keys)

length-keys_of : {K V : Type 0} (l : List (K × V)) → length (keys_of l) ≡ length l
length-keys_of [] = refl
length-keys_of ((k, v) ∷ l) = ap suc (length-keys_of l)

checked-Gives : {A : Type 0} (answer : Answer A) (a : A) → Gives answer a → checked answer ≡ value a
checked-Gives answer a (r, b) = rw (r, b) refl

checked-GivesHead :
    {K V : Type 0} (answer : Answer K) (l : List (K × V))
    → GivesHead answer l
    → checked answer ≡ head (keys_of l)
checked-GivesHead answer [] (r, e) = rw (r, e) refl
checked-GivesHead answer ((k, v) ∷ l) g = checked-Gives answer k g

-- What a loop does after its filter.
next_round : {S : Type 0} → S × Option ℕ → (S → S × Outcome) → S × Outcome
next_round (s, status) f = elim status [ some err ↦ (s, failure err) | none ↦ f s ]

next_round-congr :
    {S : Type 0} (r : S × Option ℕ) (f g : S → S × Outcome)
    → ((s : S) → f s ≡ g s)
    → next_round r f ≡ next_round r g
unfolding next_round
next_round-congr (s, none) f g e = e s
next_round-congr (s, some err) f g e = refl

walk-cons :
    {K S : Type 0} (filter : K → S → S × Option ℕ) (k : K) (ks : List K) (s : S)
    → walk filter (k ∷ ks) s ≡ next_round (filter k s) (walk filter ks)
unfolding walk next_round
walk-cons filter k ks s = refl

module _ {K V : Type 0} (calls : MapCalls K V) (m : IsMap calls) where
  calls-next :
      (w : calls.World) (before : List K) (k : K) (after : List K)
      → keys_of (m.entries w) ≡ before ++ (k ∷ after)
      → get_next_key calls w k ≡ head after
  unfolding get_next_key
  calls-next w before k after e =
      let (earlier, v, later, split, keys) = split_keys (m.entries w) before k after e in
      checked-GivesHead (calls.get_next_map_key w (some k)) later (m.next w earlier k v later split)
      ∙ ap head keys

  calls-deleted :
      (w : calls.World) (k : K) (ks : List K)
      → keys_of (m.entries w) ≡ k ∷ ks
      → ((delete_value calls w k).1 ≡ none) × (keys_of (m.entries (delete_value calls w k).0) ≡ ks)
  unfolding delete_value
  calls-deleted w k ks e =
      let (v, later, split, keys) = first_keys (m.entries w) k ks e in
      let (gone, left) = m.deleted w k v later split in (rw gone refl, ap keys_of left ∙ keys)

  pub calls-IsKeyed : IsKeyed (map_of_calls calls)
  unfolding get_first_key
  calls-IsKeyed = record {
    keys = λ w. keys_of (m.entries w);
    first = λ w. checked-GivesHead (calls.get_next_map_key w none) (m.entries w) (m.first w);
    next = calls-next;
    deleted = calls-deleted;
  }

  with_value-found :
      {S : Type 0} (w : calls.World) (filter : K → V → S → S × Option ℕ) (before : List (K × V))
      (k : K) (v : V) (after : List (K × V)) (s : S)
      → m.entries w ≡ before ++ ((k, v) ∷ after)
      → with_value (map_of_calls calls) w filter k s ≡ filter k v s
  unfolding with_value read_value
  with_value-found w filter before k v after s e =
      rw (checked-Gives (calls.find_map_entry w k) v (m.found w before k v after e), with_value)
        refl

  walk-entries :
      {S : Type 0} (w : calls.World) (filter : K → V → S → S × Option ℕ)
      (before after : List (K × V)) (s : S)
      → m.entries w ≡ before ++ after
      → walk (with_value (map_of_calls calls) w filter) (keys_of after) s
        ≡ walk_entries filter after s
  unfolding walk walk_entries next_round
  walk-entries w filter before [] s e = refl
  walk-entries w filter before ((k, v) ∷ after) s e =
      let later : m.entries w ≡ (before ++ ((k, v) ∷ [])) ++ after =
        e ∙ sym (append_assoc before ((k, v) ∷ []) after) in
      walk-cons (with_value (map_of_calls calls) w filter) k (keys_of after) s
      ∙ ap
          (λ (r : _ × Option ℕ).
            next_round r (walk (with_value (map_of_calls calls) w filter) (keys_of after)))
          (with_value-found w filter before k v after s e)
      ∙ next_round-congr (filter k v s) _ (walk_entries filter after)
          λ s1. walk-entries w filter (before ++ ((k, v) ∷ [])) after s1 later

  -- `iterateWithValue` over the calls on a map calls its filter on every entry of the map once, with
  -- the key and its value, in the order of the map, up to the first error that the filter reports,
  -- which it passes on. A round for each entry and one more are enough. Nobody else writes to the
  -- map, and the calls behave as documented.
  pub iterate_with_value-entries :
      {S : Type 0} (fuel : ℕ) (w : calls.World) (filter : K → V → S → S × Option ℕ) (s : S)
      → length (m.entries w) < fuel
      → iterate_with_value (map_of_calls calls) fuel w filter s
        ≡ walk_entries filter (m.entries w) s
  unfolding iterate_with_value calls-IsKeyed
  iterate_with_value-entries fuel w filter s f =
      iterate-walk (map_of_calls calls) calls-IsKeyed w fuel
        (with_value (map_of_calls calls) w filter) s
        (omega (arith, length-keys_of (m.entries w), f))
      ∙ walk-entries w filter [] (m.entries w) s refl
