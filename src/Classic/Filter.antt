-- ===== src/Classic/Filter.antt =====
-- Filters put together from the macros of BpfClassic.h: what the names and the comments there say of
-- each macro, as a specification (the name alone of REJECT_IF_NOT_IN_RANGE, whose comment says the
-- opposite), and the static rules under which the loads stay relative to their header.
use Prim.Native.Nat.{bit_and, max}
use platform_packages_module.Prelude.{
  ℕ, ◌+◌, ◌-◌, ◌*◌, ◌%◌, ◌^◌, Bool, Option, none, some, List, [], ◌∷◌, ◌++◌, ◌&&◌, ◌==◌, ltb, leb,
  if◌then◌else◌, length,
}
use platform_packages_module.Classic.Machine.{Insn, Width, u8, be16, be32, Machine, loaded}
use platform_packages_module.Classic.{
  accept, reject, jump_if_not_equal, accept_if_equal, reject_if_not_equal, reject_if_less_than,
  reject_if_greater_than, reject_if_not_in_range, reject_if_any_masked_bits_set, load_skb_protocol,
  load_mac_relative, load_net_relative, Field, load_ipv4, load_ipv6, loadx_net_relative_ipv4_hlen,
  loadx_constant_ipv6_hlen, load_netx_relative_l4, load_constant_v6fraghdr_len,
  load_netx_relative_v6exthdr_len, add_a_to_x,
}

-- A use of a macro. `field` stands for the loads of a field of either header.
pub data Step : Type 0 where
  accept_it reject_it : Step
  accept_equal not_equal less_than greater_than any_masked_bits : (v : ℕ) → Step
  not_in_range : (lo hi : ℕ) → Step
  skb_protocol : Step
  mac_relative net_relative netx_relative_l4 : Width → (ofs : ℕ) → Step
  ipv4_field ipv6_field : Width → Field → Step
  ipv4_hlen ipv6_hlen v6fraghdr_len v6exthdr_len a_to_x : Step

-- The instructions of some that may not compile.
abbrev pub one : Option Insn → Option (List Insn)
one none = none
one (some i) = some (i ∷ [])

-- The instructions of a step; nothing if a static assertion fails.
unfoldable pub instructions : Step → Option (List Insn)
instructions accept_it = some (accept ∷ [])
instructions reject_it = some (reject ∷ [])
instructions (accept_equal v) = some (accept_if_equal v)
instructions (not_equal v) = some (reject_if_not_equal v)
instructions (less_than v) = some (reject_if_less_than v)
instructions (greater_than v) = some (reject_if_greater_than v)
instructions (any_masked_bits v) = some (reject_if_any_masked_bits_set v)
instructions (not_in_range lo hi) = some (reject_if_not_in_range lo hi)
instructions skb_protocol = some (load_skb_protocol ∷ [])
instructions (mac_relative w ofs) = some (load_mac_relative w ofs ∷ [])
instructions (net_relative w ofs) = some (load_net_relative w ofs ∷ [])
instructions (netx_relative_l4 w ofs) = some (load_netx_relative_l4 w ofs ∷ [])
instructions (ipv4_field w f) = one (load_ipv4 w f)
instructions (ipv6_field w f) = one (load_ipv6 w f)
instructions ipv4_hlen = some (loadx_net_relative_ipv4_hlen ∷ [])
instructions ipv6_hlen = some (loadx_constant_ipv6_hlen ∷ [])
instructions v6fraghdr_len = some (load_constant_v6fraghdr_len ∷ [])
instructions v6exthdr_len = some load_netx_relative_v6exthdr_len
instructions a_to_x = some add_a_to_x

abbrev pub joined : Option (List Insn) → Option (List Insn) → Option (List Insn)
joined none rest = none
joined (some xs) none = none
joined (some xs) (some ys) = some (xs ++ ys)

unfoldable pub block : List Step → Option (List Insn)
block [] = some []
block (s ∷ ss) = joined (instructions s) (block ss)

-- A part of a filter: a step, or a block that is jumped over unless A is a number.
pub data Part : Type 0 where
  step : Step → Part
  when_equal : (v : ℕ) → List Step → Part

-- A block with the jump over it, whose offset has 8 bits.
abbrev pub guarded : (v : ℕ) → Option (List Insn) → Option (List Insn)
guarded v none = none
guarded v (some body) =
    if ltb (length body) 256 then some (jump_if_not_equal v (length body) ∷ body) else none

unfoldable pub part : Part → Option (List Insn)
part (step s) = instructions s
part (when_equal v body) = guarded v (block body)

-- The instructions of a filter.
unfoldable pub filter : List Part → Option (List Insn)
filter [] = some []
filter (p ∷ ps) = joined (part p) (filter ps)

-- What a filter has come to: how many bytes are kept, or A and X, with which it goes on.
pub data State : Type 0 where
  keep : ℕ → State
  going : (a x : ℕ) → State

abbrev pub then_do : State → (ℕ → ℕ → State) → State
then_do (keep n) f = keep n
then_do (going a x) f = f a x

abbrev pub reject_when : Bool → (a x : ℕ) → State
reject_when b a x = if b then keep 0 else going a x

-- A load of A, or of X.
abbrev pub load_a : Option ℕ → (x : ℕ) → State
load_a none x = keep 0
load_a (some v) x = going v x

abbrev pub load_x : Option ℕ → (a : ℕ) → State
load_x none a = keep 0
load_x (some b) a = going a (4 * (b % 16))

-- The size of the next extension header: a byte counts units of 8 bytes after the first.
abbrev pub load_len : Option ℕ → (x : ℕ) → State
load_len none x = keep 0
load_len (some b) x = going ((b + 1) * 8) x

module _ (m : Machine) where
  -- What a step does, as its name says.
  abbrev pub step_meaning : Step → (a x : ℕ) → State
  step_meaning accept_it a x = keep 0xFFFFFFFF
  step_meaning reject_it a x = keep 0
  step_meaning (accept_equal v) a x = if a == v then keep 0xFFFFFFFF else going a x
  step_meaning (not_equal v) a x = if a == v then going a x else keep 0
  step_meaning (less_than v) a x = reject_when (ltb a v) a x
  step_meaning (greater_than v) a x = reject_when (ltb v a) a x
  step_meaning (any_masked_bits v) a x = if bit_and a v == 0 then going a x else keep 0
  step_meaning (not_in_range lo hi) a x = if leb lo a && leb a hi then going a x else keep 0
  step_meaning skb_protocol a x = going m.protocol x
  step_meaning (mac_relative w ofs) a x = load_a (loaded m.mac w ofs) x
  step_meaning (net_relative w ofs) a x = load_a (loaded m.net w ofs) x
  step_meaning (netx_relative_l4 w ofs) a x = load_a (loaded m.net w (x + ofs)) x
  step_meaning (ipv4_field w f) a x = load_a (loaded m.net w f.offset) x
  step_meaning (ipv6_field w f) a x = load_a (loaded m.net w f.offset) x
  step_meaning ipv4_hlen a x = load_x (m.net 0) a
  step_meaning ipv6_hlen a x = going a 40
  step_meaning v6fraghdr_len a x = going 8 x
  step_meaning v6exthdr_len a x = load_len (m.net (x + 1)) x
  step_meaning a_to_x a x = going (a + x) (a + x)

  abbrev pub block_meaning : List Step → (a x : ℕ) → State
  block_meaning [] a x = going a x
  block_meaning (s ∷ ss) a x = then_do (step_meaning s a x) (block_meaning ss)

  abbrev pub part_meaning : Part → (a x : ℕ) → State
  part_meaning (step s) a x = step_meaning s a x
  part_meaning (when_equal v body) a x = if a == v then block_meaning body a x else going a x

  -- What a filter does.
  abbrev pub meaning : List Part → (a x : ℕ) → State
  meaning [] a x = going a x
  meaning (p ∷ ps) a x = then_do (part_meaning p a x) (meaning ps)

-- What A and X are at most.
pub record Bound : Type 0 where
  pub a : ℕ
  pub x : ℕ

abbrev pub a_at_most : ℕ → Bound → Bound
a_at_most n b = record { a = n; x = b.x }

abbrev pub x_at_most : ℕ → Bound → Bound
x_at_most n b = record { a = b.a; x = n }

abbrev pub widest : Width → ℕ
widest u8 = 2 ^ 8 - 1
widest be16 = 2 ^ 16 - 1
widest be32 = 2 ^ 32 - 1

-- The rules: every load stays relative to its header, and no sum passes 32 bits. The bounds that hold
-- before a step give those that hold after it.
unfoldable pub step_rule : Step → Bound → Option Bound
step_rule accept_it b = some b
step_rule reject_it b = some b
step_rule (accept_equal v) b = some b
step_rule (not_equal v) b = some b
step_rule (less_than v) b = some b
step_rule (greater_than v) b = some b
step_rule (any_masked_bits v) b = some b
step_rule (not_in_range lo hi) b = some b
step_rule skb_protocol b = some (a_at_most (2 ^ 16 - 1) b)
step_rule (mac_relative w ofs) b = if ltb ofs 0x100000 then some (a_at_most (widest w) b) else none
step_rule (net_relative w ofs) b = if ltb ofs 0xFF000 then some (a_at_most (widest w) b) else none
step_rule (netx_relative_l4 w ofs) b =
    if ltb (b.x + ofs) 0x100000 then some (a_at_most (widest w) b) else none
step_rule (ipv4_field w f) b = if ltb f.offset 0xFF000 then some (a_at_most (widest w) b) else none
step_rule (ipv6_field w f) b = if ltb f.offset 0xFF000 then some (a_at_most (widest w) b) else none
step_rule ipv4_hlen b = some (x_at_most 60 b)
step_rule ipv6_hlen b = some (x_at_most 40 b)
step_rule v6fraghdr_len b = some (a_at_most 8 b)
step_rule v6exthdr_len b = if ltb (b.x + 1) 0x100000 then some (a_at_most 2048 b) else none
step_rule a_to_x b =
    if ltb (b.a + b.x) (2 ^ 32) then some (record { a = b.a + b.x; x = b.a + b.x }) else none

abbrev pub and_then : Option Bound → (Bound → Option Bound) → Option Bound
and_then none f = none
and_then (some b) f = f b

unfoldable pub block_rule : List Step → Bound → Option Bound
block_rule [] b = some b
block_rule (s ∷ ss) b = and_then (step_rule s b) (block_rule ss)

-- The bounds after a block that may have been passed over.
abbrev pub either_bound : Bound → Option Bound → Option Bound
either_bound b none = none
either_bound b (some c) = some (record { a = max b.a c.a; x = max b.x c.x })

unfoldable pub part_rule : Part → Bound → Option Bound
part_rule (step s) b = step_rule s b
part_rule (when_equal v body) b = either_bound b (block_rule body b)

unfoldable pub filter_rule : List Part → Bound → Option Bound
filter_rule [] b = some b
filter_rule (p ∷ ps) b = and_then (part_rule p b) (filter_rule ps)
