-- ===== src/Classic/Rules.antt =====
-- The rules of Classic.Filter keep their promise: A and X stay within their bounds.
use Prim.Native.Nat.{bit_and}
use platform_packages_module.Prelude.{
  ℕ, ◌+◌, ◌≤◌, ◌<◌, ◌≡◌, Bool, true, false, Option, none, some, List, [], ◌∷◌, ◌==◌, ltb, leb,
  if◌then◌else◌, arith, refl, subst, ◌&&◌, inl, inr, Option-cases,
}
use platform_packages_module.Classic.Machine.{
  Width, u8, be16, be32, Machine, IsClassic, loaded, big_endian,
}
use platform_packages_module.Classic.Filter.{
  Step, State, keep, going, then_do, load_a, load_x, load_len, step_meaning, Bound, widest,
  step_rule, a_at_most, x_at_most, and_then, block_rule, block_meaning, Part, step, when_equal,
  part_rule, part_meaning, either_bound, filter_rule, meaning,
}

big_endian_bound :
    (byte : ℕ → Option ℕ)
    → ((o b : ℕ) → byte o ≡ some b → b < 256)
    → (w : Width) (from v : ℕ) → loaded byte w from ≡ some v
    → v ≤ widest w
unfolding big_endian
big_endian_bound byte small u8 from v e = elim (Option-cases (byte from)) [
  | inl p ↦ ground (arith, p, e)
  | inr (b, p) ↦ ground (arith, p, e, small from b p)
]
big_endian_bound byte small be16 from v e = elim (Option-cases (byte from)) [
  | inl p ↦ ground (arith, p, e)
  | inr (b, p) ↦ elim (Option-cases (byte (from + 1))) [
    | inl q ↦ ground (arith, p, q, e)
    | inr (c, q) ↦ ground (arith, p, q, e, small from b p, small (from + 1) c q)
  ]
]
big_endian_bound byte small be32 from v e = elim (Option-cases (byte from)) [
  | inl p ↦ ground (arith, p, e)
  | inr (b, p) ↦ elim (Option-cases (byte (from + 1))) [
    | inl q ↦ ground (arith, p, q, e)
    | inr (c, q) ↦ elim (Option-cases (byte (from + 2))) [
      | inl s ↦ ground (arith, p, q, s, e)
      | inr (d, s) ↦ elim (Option-cases (byte (from + 3))) [
        | inl t ↦ ground (arith, p, q, s, t, e)
        | inr (f, t) ↦ ground (
          arith,
          p,
          q,
          s,
          t,
          e,
          small from b p,
          small (from + 1) c q,
          small (from + 2) d s,
          small (from + 3) f t,
        )
      ]
    ]
  ]
]

-- The bounds hold of A and X, if the filter goes on.
abbrev pub Within : Bound → State → Type 0
Within b (keep n) = Unit
Within b (going a x) = (a ≤ b.a) × (x ≤ b.x)

if-Within :
    (b : Bound) (p : Bool) (s t : State) → Within b s → Within b t → Within b (if p then s else t)
if-Within b true s t h g = h
if-Within b false s t h g = g

load_a-Within :
    (b : Bound) (o : Option ℕ) (x : ℕ)
    → ((v : ℕ) → o ≡ some v → v ≤ b.a)
    → x ≤ b.x
    → Within b (load_a o x)
load_a-Within b none x small h = tt
load_a-Within b (some v) x small h = (small v refl, h)

load_x-Within : (b : Bound) (o : Option ℕ) (a : ℕ) → a ≤ b.a → 60 ≤ b.x → Within b (load_x o a)
load_x-Within b none a h g = tt
load_x-Within b (some v) a h g = (h, omega (arith, g))

load_len-Within :
    (b : Bound) (o : Option ℕ) (x : ℕ)
    → ((v : ℕ) → o ≡ some v → v < 256)
    → x ≤ b.x
    → 2048 ≤ b.a
    → Within b (load_len o x)
load_len-Within b none x small h g = tt
load_len-Within b (some v) x small h g = (omega (arith, small v refl, g), h)

-- A step that only looks at A.
same-Within : (b c : Bound) (s : State) → some b ≡ some c → Within b s → Within c s
same-Within b c s r h = subst (λ (o : Option Bound). Kept o s) r h
  where
    Kept : Option Bound → State → Type 0
    Kept none s = Unit
    Kept (some c) s = Within c s

-- A rule with a guard, which has passed.
guard-passed : (p : Bool) (b c : Bound) → (if p then some b else none) ≡ some c → some b ≡ some c
guard-passed true b c r = r
guard-passed false b c r = cc

module _ (byte : ℕ → Option ℕ) (small : (o b : ℕ) → byte o ≡ some b → b < 256) where
  -- A load of some width, under a guard on its address.
  load-Within :
      (w : Width) (from : ℕ) (p : Bool) (b c : Bound) (a x : ℕ)
      → (if p then some (a_at_most (widest w) b) else none) ≡ some c
      → Within b (going a x)
      → Within c (load_a (loaded byte w from) x)
  load-Within w from p b c a x r h =
      same-Within (a_at_most (widest w) b) c _ (guard-passed p _ c r) (
        load_a-Within (a_at_most (widest w) b) (loaded byte w from) x
          (big_endian_bound byte small w from) h.1)

module _ (m : Machine) (classic : IsClassic m) where
  pub step-Within :
      (s : Step) (b c : Bound) (a x : ℕ)
      → step_rule s b ≡ some c
      → Within b (going a x)
      → Within c (step_meaning m s a x)
  unfolding step_rule
  step-Within Step.accept_it b c a x r h = tt
  step-Within Step.reject_it b c a x r h = tt
  step-Within (Step.accept_equal v) b c a x r h =
      same-Within b c _ r (if-Within b (a == v) (keep 0xFFFFFFFF) (going a x) tt h)
  step-Within (Step.not_equal v) b c a x r h =
      same-Within b c _ r (if-Within b (a == v) (going a x) (keep 0) h tt)
  step-Within (Step.less_than v) b c a x r h =
      same-Within b c _ r (if-Within b (ltb a v) (keep 0) (going a x) tt h)
  step-Within (Step.greater_than v) b c a x r h =
      same-Within b c _ r (if-Within b (ltb v a) (keep 0) (going a x) tt h)
  step-Within (Step.any_masked_bits v) b c a x r h =
      same-Within b c _ r (if-Within b (bit_and a v == 0) (going a x) (keep 0) h tt)
  step-Within (Step.not_in_range lo hi) b c a x r h =
      same-Within b c _ r (if-Within b (leb lo a && leb a hi) (going a x) (keep 0) h tt)
  step-Within Step.skb_protocol b c a x r h = ground (arith, r, h.0, h.1, classic.protocol_bound)
  step-Within (Step.mac_relative w ofs) b c a x r h =
      load-Within m.mac classic.mac_byte w ofs (ltb ofs 0x100000) b c a x r h
  step-Within (Step.net_relative w ofs) b c a x r h =
      load-Within m.net classic.net_byte w ofs (ltb ofs 0xFF000) b c a x r h
  step-Within (Step.netx_relative_l4 w ofs) b c a x r h =
      load-Within m.net classic.net_byte w (x + ofs) (ltb (b.x + ofs) 0x100000) b c a x r h
  step-Within (Step.ipv4_field w f) b c a x r h =
      load-Within m.net classic.net_byte w f.offset (ltb f.offset 0xFF000) b c a x r h
  step-Within (Step.ipv6_field w f) b c a x r h =
      load-Within m.net classic.net_byte w f.offset (ltb f.offset 0xFF000) b c a x r h
  step-Within Step.ipv4_hlen b c a x r h =
      same-Within (x_at_most 60 b) c _ r
        (load_x-Within (x_at_most 60 b) (m.net 0) a h.0 (omega arith))
  step-Within Step.ipv6_hlen b c a x r h = ground (arith, r, h.0)
  step-Within Step.v6fraghdr_len b c a x r h = ground (arith, r, h.1)
  step-Within Step.v6exthdr_len b c a x r h =
      same-Within (a_at_most 2048 b) c _
        (guard-passed (ltb (b.x + 1) 0x100000) (a_at_most 2048 b) c r)
        (load_len-Within (a_at_most 2048 b) (m.net (x + 1)) x (classic.net_byte (x + 1)) h.1
          (omega arith))
  step-Within Step.a_to_x b c a x r h = ground (arith, r, h.0, h.1)

-- The rule of two parts in a row.
pub and_then-passed :
    (o : Option Bound) (f : Bound → Option Bound) (c : Bound)
    → and_then o f ≡ some c
    → (d : Bound) × (o ≡ some d) × (f d ≡ some c)
and_then-passed none f c r = cc
and_then-passed (some d) f c r = (d, refl, r)

pub then_do-Within :
    (d c : Bound) (s : State) (f : ℕ → ℕ → State)
    → Within d s
    → ((a x : ℕ) → Within d (going a x) → Within c (f a x))
    → Within c (then_do s f)
then_do-Within d c (keep n) f h g = tt
then_do-Within d c (going a x) f h g = g a x h

-- What holds on both ways around a block.
pub either-passed :
    (b c : Bound) (o : Option Bound)
    → either_bound b o ≡ some c
    → (d : Bound) × (o ≡ some d) × (b.a ≤ c.a) × (b.x ≤ c.x) × (d.a ≤ c.a) × (d.x ≤ c.x)
either-passed b c none r = cc
either-passed b c (some d) r =
    (d, refl, ground (arith, r), ground (arith, r), ground (arith, r), ground (arith, r))

wider-Within : (b c : Bound) (s : State) → b.a ≤ c.a → b.x ≤ c.x → Within b s → Within c s
wider-Within b c (keep n) p q h = tt
wider-Within b c (going a x) p q (h, g) = (omega (arith, p, h), omega (arith, q, g))

module _ (m : Machine) (classic : IsClassic m) where
  pub block-Within :
      (ss : List Step) (b c : Bound) (a x : ℕ)
      → block_rule ss b ≡ some c
      → Within b (going a x)
      → Within c (block_meaning m ss a x)
  unfolding block_rule
  block-Within [] b c a x r h = same-Within b c (going a x) r h
  block-Within (s ∷ ss) b c a x r h =
      let (d, first, rest) = and_then-passed (step_rule s b) (block_rule ss) c r in
      then_do-Within d c (step_meaning m s a x) (block_meaning m ss)
        (step-Within m classic s b d a x first h) λ a1 x1. block-Within ss d c a1 x1 rest

  pub part-Within :
      (p : Part) (b c : Bound) (a x : ℕ)
      → part_rule p b ≡ some c
      → Within b (going a x)
      → Within c (part_meaning m p a x)
  unfolding part_rule
  part-Within (step s) b c a x r h = step-Within m classic s b c a x r h
  part-Within (when_equal v body) b c a x r h =
      let (d, run, ba, bx, da, dx) = either-passed b c (block_rule body b) r in
      if-Within c (a == v) (block_meaning m body a x) (going a x)
        (wider-Within d c (block_meaning m body a x) da dx (block-Within body b d a x run h))
        (wider-Within b c (going a x) ba bx h)

  -- A and X stay within the bounds that the rules compute.
  pub meaning-Within :
      (ps : List Part) (b c : Bound) (a x : ℕ)
      → filter_rule ps b ≡ some c
      → Within b (going a x)
      → Within c (meaning m ps a x)
  unfolding filter_rule
  meaning-Within [] b c a x r h = same-Within b c (going a x) r h
  meaning-Within (p ∷ ps) b c a x r h =
      let (d, first, rest) = and_then-passed (part_rule p b) (filter_rule ps) c r in
      then_do-Within d c (part_meaning m p a x) (meaning m ps) (part-Within p b d a x first h)
        λ a1 x1. meaning-Within ps d c a1 x1 rest
