-- ===== src/BpfMap/Laws.antt =====
-- BpfMap.h: iteration is a walk over the keys, and `clear` empties the map.
use platform_packages_module.Prelude.{
  ℕ, zero, suc, ◌<◌, List, [], ◌∷◌, ◌++◌, ◌≡◌, Option, none, some, length, arith, refl,
  append_assoc, sym, ◌∙◌, ◌⊎◌, inl, inr,
}
use platform_packages_module.BpfMap.{
  Result, value, error, enoent, KernelMap, Outcome, success, failure, iterate_loop, iterate, clear,
}

-- The first of some keys, or that there is none.
abbrev pub head : {K : Type 0} → List K → Result K
head [] = error enoent
head (k ∷ ks) = value k

-- The documented behaviour of a map that nobody else writes to: its keys stand in some order, which
-- the first and the next key follow, and the deletion of the first of them leaves the others.
pub record IsKeyed {K V : Type 0} (m : KernelMap K V) : Type 0 where
  pub keys : m.World → List K
  pub first : (w : m.World) → m.first_key w ≡ head (keys w)
  pub next :
      (w : m.World) (before : List K) (k : K) (after : List K)
      → keys w ≡ before ++ (k ∷ after)
      → m.next_key w k ≡ head after
  pub deleted :
      (w : m.World) (k : K) (ks : List K)
      → keys w ≡ k ∷ ks
      → ((m.delete w k).1 ≡ none) × (keys (m.delete w k).0 ≡ ks)

List-cases : {K : Type 0} (ks : List K) → (ks ≡ []) ⊎ ((k : K) × (rest : List K) × (ks ≡ k ∷ rest))
List-cases [] = inl refl
List-cases (k ∷ ks) = inr (k, ks, refl)

-- A filter called on each of some keys in turn, up to the first error.
unfoldable pub walk : {K S : Type 0} → (K → S → S × Option ℕ) → List K → S → S × Outcome
walk filter [] s = (s, success)
walk filter (k ∷ ks) s =
    let (s1, status) = filter k s in
    let rest = walk filter ks s1 in elim status [ some err ↦ (s1, failure err) | none ↦ rest ]

module _ {K V S : Type 0} (m : KernelMap K V) (keyed : IsKeyed m) (w : m.World) where
  iterate_loop-walk :
      (fuel : ℕ) (filter : K → S → S × Option ℕ) (before after : List K) (s : S)
      → keyed.keys w ≡ before ++ after
      → length after < fuel
      → iterate_loop m fuel w filter (head after) s ≡ walk filter after s
  unfolding iterate_loop walk
  iterate_loop-walk zero filter before after s e f = ground arith
  iterate_loop-walk (suc fuel) filter before [] s e f = ground arith
  iterate_loop-walk (suc fuel) filter before (k ∷ ks) s e f = ground (
    arith,
    keyed.next w before k ks e,
    iterate_loop-walk fuel filter (before ++ (k ∷ [])) ks (filter k s).0
        (e ∙ sym (append_assoc before (k ∷ []) ks)) (ground (arith, f)),
  )

  -- `iterate` calls its filter on every key of the map once, in the order of the map, up to the first
  -- error that the filter reports, which it passes on. A round for each key and one more are enough.
  pub iterate-walk :
      (fuel : ℕ) (filter : K → S → S × Option ℕ) (s : S)
      → length (keyed.keys w) < fuel
      → iterate m fuel w filter s ≡ walk filter (keyed.keys w) s
  unfolding iterate
  iterate-walk fuel filter s f =
      rw (keyed.first w) (iterate_loop-walk fuel filter [] (keyed.keys w) s refl f)

module _ {K V : Type 0} (m : KernelMap K V) (keyed : IsKeyed m) where
  -- `clear` ends, without an error, and leaves the map without keys, if it has a round for each key
  -- and one more and nobody else writes to the map.
  pub clear-empties :
      (fuel : ℕ) (w : m.World)
      → length (keyed.keys w) < fuel
      → ((clear m fuel w).1 ≡ success) × (keyed.keys (clear m fuel w).0 ≡ [])
  unfolding clear
  clear-empties zero w f = ground arith
  clear-empties (suc fuel) w f = elim (List-cases (keyed.keys w)) [
    | inl e ↦ ground (arith, e, keyed.first w)
    | inr (k, ks, e) ↦
        let (gone, left) = keyed.deleted w k ks e in
        ground (
          arith,
          e,
          keyed.first w,
          gone,
          left,
          clear-empties fuel (m.delete w k).0 (ground (arith, f, e, left)),
        )
  ]
