-- ===== src/Classic/Jumps.antt =====
-- Every jump of a filter lands within it.
use platform_packages_module.Prelude.{
  ℕ, ◌+◌, ◌<◌, ◌≡◌, Bool, true, false, Option, none, some, List, [], ◌∷◌, ◌++◌, length,
  length-append, ltb, if◌then◌else◌, arith, subst, ◌==◌, refl,
}
use platform_packages_module.Classic.Machine.{Insn, Width, bytes}
use platform_packages_module.Classic.{load_net_relative, jump_if_not_equal}
use platform_packages_module.Classic.Filter.{
  Step, instructions, one, joined, block, Part, step, when_equal, guarded, part, filter,
}

-- The offsets of each instruction have 8 bits and lead to an instruction, where `after` more of them
-- follow.
abbrev pub Lands : (after : ℕ) → List Insn → Type 0
Lands after [] = Unit
Lands after (i ∷ is) =
    (i.jt < 256)
    × (i.jf < 256)
    × (i.jt < length is + after)
    × (i.jf < length is + after)
    × Lands after is

-- Wherever code that compiles is put, before one instruction or more.
abbrev LandsAll : Option (List Insn) → Type 0
LandsAll none = Unit
LandsAll (some xs) = (after : ℕ) → 0 < after → Lands after xs

Lands-append :
    (xs ys : List Insn) (after : ℕ)
    → Lands (length ys + after) xs
    → Lands after ys
    → Lands after (xs ++ ys)
Lands-append [] ys after h g = g
Lands-append (i ∷ is) ys after (t8, f8, t, f, h) g = (
  t8,
  f8,
  omega (arith, t, length-append is ys),
  omega (arith, f, length-append is ys),
  Lands-append is ys after h g,
)

one-LandsAll :
    (p : Bool) (w : Width) (ofs : ℕ)
    → LandsAll (one (if p then some (load_net_relative w ofs) else none))
one-LandsAll true w ofs =
    λ after h. (omega arith, omega arith, omega (arith, h), omega (arith, h), tt)
one-LandsAll false w ofs = tt

step-LandsAll : (s : Step) → LandsAll (instructions s)
unfolding instructions
step-LandsAll (Step.ipv4_field w f) = one-LandsAll (f.size == bytes w) w f.offset
step-LandsAll (Step.ipv6_field w f) = one-LandsAll (f.size == bytes w) w f.offset
step-LandsAll Step.accept_it = λ after h. ground arith
step-LandsAll Step.reject_it = λ after h. ground arith
step-LandsAll (Step.accept_equal v) = λ after h. ground arith
step-LandsAll (Step.not_equal v) = λ after h. ground arith
step-LandsAll (Step.less_than v) = λ after h. ground arith
step-LandsAll (Step.greater_than v) = λ after h. ground arith
step-LandsAll (Step.any_masked_bits v) = λ after h. ground arith
step-LandsAll (Step.not_in_range lo hi) = λ after h. ground arith
step-LandsAll Step.skb_protocol = λ after h. ground arith
step-LandsAll (Step.mac_relative w ofs) = λ after h. ground arith
step-LandsAll (Step.net_relative w ofs) = λ after h. ground arith
step-LandsAll (Step.netx_relative_l4 w ofs) = λ after h. ground arith
step-LandsAll Step.ipv4_hlen = λ after h. ground arith
step-LandsAll Step.ipv6_hlen = λ after h. ground arith
step-LandsAll Step.v6fraghdr_len = λ after h. ground arith
step-LandsAll Step.v6exthdr_len = λ after h. ground arith
step-LandsAll Step.a_to_x = λ after h. ground arith

joined-LandsAll : (o p : Option (List Insn)) → LandsAll o → LandsAll p → LandsAll (joined o p)
joined-LandsAll none p h g = tt
joined-LandsAll (some xs) none h g = tt
joined-LandsAll (some xs) (some ys) h g = λ after more.
    Lands-append xs ys after (h (length ys + after) (omega (arith, more))) (g after more)

block-LandsAll : (ss : List Step) → LandsAll (block ss)
unfolding block
block-LandsAll [] = λ after h. tt
block-LandsAll (s ∷ ss) =
    joined-LandsAll (instructions s) (block ss) (step-LandsAll s) (block-LandsAll ss)

if-LandsAll :
    (v : ℕ) (body : List Insn) (p : Bool)
    → ltb (length body) 256 ≡ p
    → LandsAll (some body)
    → LandsAll (if p then some (jump_if_not_equal v (length body) ∷ body) else none)
if-LandsAll v body true short h = λ after more.
    (omega arith, ground (arith, short), omega (arith, more), omega (arith, more), h after more)
if-LandsAll v body false short h = tt

guarded-LandsAll : (v : ℕ) (o : Option (List Insn)) → LandsAll o → LandsAll (guarded v o)
guarded-LandsAll v none h = tt
guarded-LandsAll v (some body) h = if-LandsAll v body (ltb (length body) 256) refl h

part-LandsAll : (p : Part) → LandsAll (part p)
unfolding part
part-LandsAll (step s) = step-LandsAll s
part-LandsAll (when_equal v body) = guarded-LandsAll v (block body) (block-LandsAll body)

filter-LandsAll : (ps : List Part) → LandsAll (filter ps)
unfolding filter
filter-LandsAll [] = λ after h. tt
filter-LandsAll (p ∷ ps) =
    joined-LandsAll (part p) (filter ps) (part-LandsAll p) (filter-LandsAll ps)

-- In a filter that compiles, with an instruction or more after it, every jump leads to an
-- instruction, forwards, and fits the 8 bits of its offset.
pub filter-Lands :
    (ps : List Part) (xs : List Insn) (after : ℕ) → filter ps ≡ some xs → 0 < after → Lands after xs
filter-Lands ps xs after e = subst LandsAll e (filter-LandsAll ps) after
