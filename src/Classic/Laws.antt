-- ===== src/Classic/Laws.antt =====
-- Filters of the macros of BpfClassic.h do what the names of the macros say, one after the other.
use platform_packages_module.Prelude.{
  ℕ, ◌≤◌, ◌≡◌, Bool, true, false, Option, none, some, List, [], ◌∷◌, ◌++◌, ◌==◌, ltb, if◌then◌else◌,
  refl, ◌∙◌, subst, ◌⊎◌, inl, inr, Bool-cases, append_assoc, drop, length,
}
use platform_packages_module.Classic.Machine.{Insn, Machine, IsClassic}
use platform_packages_module.Classic.{jump_if_not_equal}
use platform_packages_module.Classic.Filter.{
  Step, instructions, State, keep, going, then_do, step_meaning, Bound, step_rule, joined, block,
  block_meaning, block_rule, Part, step, when_equal, guarded, part, part_meaning, part_rule, filter,
  filter_rule, meaning,
}
use platform_packages_module.Classic.Rules.{
  Within, step-Within, and_then-passed, either-passed, part-Within, meaning-Within,
}
use platform_packages_module.Classic.Steps.{finish, Does, step-Does}

-- One piece of code after the other, which is reached only if the first goes on.
joined-Does :
    (m : Machine) (o p : Option (List Insn)) (rest : List Insn) (a x : ℕ) (s : State)
    (f : ℕ → ℕ → State)
    → ((more : List Insn) → Does m o more a x s)
    → ((a1 x1 : ℕ) → s ≡ going a1 x1 → Does m p rest a1 x1 (f a1 x1))
    → Does m (joined o p) rest a x (then_do s f)
joined-Does m none p rest a x s f h g = tt
joined-Does m (some xs) none rest a x s f h g = tt
joined-Does m (some xs) (some ys) rest a x (keep n) f h g =
    rw (append_assoc xs ys rest) (h (ys ++ rest))
joined-Does m (some xs) (some ys) rest a x (going a1 x1) f h g =
    rw (append_assoc xs ys rest) (h (ys ++ rest) ∙ g a1 x1 refl)

drop-length : {A : Type 0} (xs ys : List A) → drop (length xs) (xs ++ ys) ≡ ys
drop-length [] ys = refl
drop-length (x ∷ xs) ys = drop-length xs ys

if-Does :
    (m : Machine) (p : Bool) (xs rest : List Insn) (a x : ℕ) (s : State)
    → m.exec (xs ++ rest) a x ≡ finish m rest s
    → Does m (if p then some xs else none) rest a x s
if-Does m true xs rest a x s h = h
if-Does m false xs rest a x s h = tt

-- A block behind its jump is done exactly if A is the number.
guarded-Does :
    (m : Machine) (v : ℕ) (o : Option (List Insn)) (rest : List Insn) (a x : ℕ) (s : State)
    → IsClassic m
    → Does m o rest a x s
    → Does m (guarded v o) rest a x (if a == v then s else going a x)
guarded-Does m v none rest a x s classic h = tt
guarded-Does m v (some body) rest a x s classic h =
    if-Does m (ltb (length body) 256) (jump_if_not_equal v (length body) ∷ body) rest a x
      (if a == v then s else going a x)
      (classic.jeq v 0 (length body) a x (body ++ rest) ∙ elim (Bool-cases (a == v)) [
        | inl e ↦ rw e h
        | inr e ↦ rw (e, drop-length body rest) refl
      ])

module _ (m : Machine) (classic : IsClassic m) where
  block-Does :
      (ss : List Step) (b c : Bound) (rest : List Insn) (a x : ℕ)
      → block_rule ss b ≡ some c
      → Within b (going a x)
      → Does m (block ss) rest a x (block_meaning m ss a x)
  unfolding block block_rule
  block-Does [] b c rest a x r h = refl
  block-Does (s ∷ ss) b c rest a x r h =
      let (d, first, after) = and_then-passed (step_rule s b) (block_rule ss) c r in
      joined-Does m (instructions s) (block ss) rest a x (step_meaning m s a x) (block_meaning m ss)
        (λ more. step-Does m classic s b d more a x first h)
        λ a1 x1 e.
          block-Does ss d c rest a1 x1 after
            (subst (Within d) e (step-Within m classic s b d a x first h))

  part-Does :
      (p : Part) (b c : Bound) (rest : List Insn) (a x : ℕ)
      → part_rule p b ≡ some c
      → Within b (going a x)
      → Does m (part p) rest a x (part_meaning m p a x)
  unfolding part part_rule
  part-Does (step s) b c rest a x r h = step-Does m classic s b c rest a x r h
  part-Does (when_equal v body) b c rest a x r h =
      let (d, run, _, _, _, _) = either-passed b c (block_rule body b) r in
      guarded-Does m v (block body) rest a x (block_meaning m body a x) classic
        (block-Does body b d rest a x run h)

  filter-Does :
      (ps : List Part) (b c : Bound) (rest : List Insn) (a x : ℕ)
      → filter_rule ps b ≡ some c
      → Within b (going a x)
      → Does m (filter ps) rest a x (meaning m ps a x)
  unfolding filter filter_rule
  filter-Does [] b c rest a x r h = refl
  filter-Does (p ∷ ps) b c rest a x r h =
      let (d, first, after) = and_then-passed (part_rule p b) (filter_rule ps) c r in
      joined-Does m (part p) (filter ps) rest a x (part_meaning m p a x) (meaning m ps)
        (λ more. part-Does p b d more a x first h)
        λ a1 x1 e.
          filter-Does ps d c rest a1 x1 after
            (subst (Within d) e (part-Within m classic p b d a x first h))

  -- A filter that compiles and obeys the rules for its loads does what its macros mean, one after the
  -- other, in front of any instructions: it keeps what they keep of the packet, or goes on to the
  -- instructions with their A and X. A test rejects on the condition that its name states:
  -- REJECT_IF_NOT_IN_RANGE if A is below lo or above hi, against the comment on it, which has the
  -- reject statement jumped over then. The kernel behaves as documented.
  pub filter-meaning :
      (ps : List Part) (xs rest : List Insn) (b c : Bound) (a x : ℕ)
      → filter ps ≡ some xs
      → filter_rule ps b ≡ some c
      → a ≤ b.a
      → x ≤ b.x
      → m.exec (xs ++ rest) a x ≡ finish m rest (meaning m ps a x)
  filter-meaning ps xs rest b c a x e r h g =
      subst (λ (o : Option (List Insn)). Does m o rest a x (meaning m ps a x)) e
        (filter-Does ps b c rest a x r (h, g))

-- What code comes to, whatever instructions follow it: it answers, or it goes on to them with A and
-- X within bounds.
pub IsTyped : Machine → List Insn → Bound → (a x : ℕ) → Type 0
IsTyped m xs c a x =
    ((n : ℕ) × ((rest : List Insn) → m.exec (xs ++ rest) a x ≡ n))
    ⊎ ((a1 : ℕ) × (x1 : ℕ) × (a1 ≤ c.a)
        × (x1 ≤ c.x)
        × ((rest : List Insn) → m.exec (xs ++ rest) a x ≡ m.exec rest a1 x1))

state-IsTyped :
    (m : Machine) (xs : List Insn) (c : Bound) (a x : ℕ) (s : State)
    → ((rest : List Insn) → m.exec (xs ++ rest) a x ≡ finish m rest s)
    → Within c s
    → IsTyped m xs c a x
unfolding IsTyped
state-IsTyped m xs c a x (keep n) h g = inl (n, h)
state-IsTyped m xs c a x (going a1 x1) h (p, q) = inr (a1, x1, p, q, h)

-- The rules are a type system for filters, and sound: a filter that compiles and obeys them, at
-- values of A and X within the bounds that they start from, answers, whatever instructions follow,
-- or goes on to these with A and X within the bounds that the rules give.
pub filter-IsTyped :
    (m : Machine) (classic : IsClassic m) (ps : List Part) (xs : List Insn) (b c : Bound) (a x : ℕ)
    → filter ps ≡ some xs
    → filter_rule ps b ≡ some c
    → a ≤ b.a
    → x ≤ b.x
    → IsTyped m xs c a x
filter-IsTyped m classic ps xs b c a x e r h g =
    state-IsTyped m xs c a x (meaning m ps a x)
      (λ rest. filter-meaning m classic ps xs rest b c a x e r h g)
      (meaning-Within m classic ps b c a x r (h, g))
