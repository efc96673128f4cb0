-- ===== src/BpfMap.antt =====
-- src/bpf/headers/include/bpf/BpfMap.h: the wrapper of a kernel map, `BpfMapRO` and `BpfMap`.
pub mod Laws
pub mod Open
pub mod Calls
pub mod Handle
mod Tests
use platform_packages_module.Prelude.{
  ℕ, zero, suc, Option, none, some, Bool, true, false, ◌==◌, if◌then◌else◌,
}

-- A value, or an error with its number.
pub data Result (A : Type 0) : Type 0 where
  value : A → Result A
  error : ℕ → Result A

-- ENOENT
abbrev pub enoent : ℕ
enoent = 2

-- The system calls on one map, whose state they are given. A deletion answers with nothing, or with
-- the error number.
pub record KernelMap (K : Type 0) (V : Type 0) : Type 1 where
  pub World : Type 0
  pub first_key : World → Result K
  pub next_key : World → K → Result K
  pub find : World → K → Result V
  pub delete : World → K → World × Option ℕ

-- How a loop over a map ends.
pub data Outcome : Type 0 where
  success : Outcome
  failure : ℕ → Outcome
  out_of_fuel : Outcome

module _ {K V : Type 0} (m : KernelMap K V) where
  -- `isEmpty`
  unfoldable pub is_empty : m.World → Result Bool
  is_empty w = elim (m.first_key w) [
    | value k ↦ value false
    | error err ↦ if err == enoent then value true else error err
  ]

  -- The loop of `iterate`, on fuel. The filter keeps a state of its own and answers with nothing, or
  -- with an error; the next key is asked for before it is called.
  unfoldable pub iterate_loop :
      {S : Type 0} (fuel : ℕ) → m.World → (K → S → S × Option ℕ) → Result K → S → S × Outcome
  iterate_loop zero w filter cur s = (s, out_of_fuel)
  iterate_loop (suc fuel) w filter (error err) s =
      (s, if err == enoent then success else failure err)
  iterate_loop (suc fuel) w filter (value k) s =
      let (s1, status) = filter k s in
      let rest = iterate_loop fuel w filter (m.next_key w k) s1 in
      elim status [ some err ↦ (s1, failure err) | none ↦ rest ]

  -- `iterate`
  unfoldable pub iterate :
      {S : Type 0} (fuel : ℕ) → m.World → (K → S → S × Option ℕ) → S → S × Outcome
  iterate fuel w filter s = iterate_loop fuel w filter (m.first_key w) s

  -- The filter of `iterateWithValue`: the value is read, and an error of the reading ends the loop.
  unfoldable pub with_value :
      {S : Type 0} → m.World → (K → V → S → S × Option ℕ) → K → S → S × Option ℕ
  with_value w filter k s = elim (m.find w k) [ error err ↦ (s, some err) | value v ↦ filter k v s ]

  -- `iterateWithValue`
  unfoldable pub iterate_with_value :
      {S : Type 0} (fuel : ℕ) → m.World → (K → V → S → S × Option ℕ) → S → S × Outcome
  iterate_with_value fuel w filter s = iterate fuel w (with_value w filter) s

  -- `clear`, on fuel.
  unfoldable pub clear : (fuel : ℕ) → m.World → m.World × Outcome
  clear zero w = (w, out_of_fuel)
  clear (suc fuel) w = elim (m.first_key w) [
    | error err ↦ (w, if err == enoent then success else failure err)
    | value k ↦
        let (w1, status) = m.delete w k in
        let rest = clear fuel w1 in
        elim status [ none ↦ rest | some err ↦ if err == enoent then rest else (w1, failure err) ]
  ]
