-- ===== src/Classic/Tests.antt =====
-- A filter that keeps the router advertisements among the packets of IPv6, and what it does.
use platform_packages_module.Prelude.{◌≡◌, some, List, [], ◌∷◌, ◌++◌, arith, refl}
use platform_packages_module.Classic.Machine.{Insn, Width, u8}
use platform_packages_module.Classic.{reject}
use platform_packages_module.Classic.Filter.{
  Step, Part, step, when_equal, instructions, block, part, filter, meaning, Bound, step_rule,
  block_rule, part_rule, filter_rule,
}
use platform_packages_module.Classic.Steps.{finish}
use platform_packages_module.Classic.Jumps.{Lands, filter-Lands}
use platform_packages_module.Classic.Laws.{filter-meaning, IsTyped, filter-IsTyped}
use platform_packages_module.Classic.Sample.{machine, machine-IsClassic}

-- The protocol is IPv6; the header after the IPv6 header may be that for hop-by-hop options (0),
-- which is passed over; the type of the ICMPv6 message is 134.
abbrev advertisements : List Part
advertisements =
    step Step.skb_protocol
    ∷ step (Step.not_equal 0x86DD)
    ∷ step Step.ipv6_hlen
    ∷ step (Step.ipv6_field u8 (record { offset = 6; size = 1 }))
    ∷ when_equal 0 (Step.v6exthdr_len ∷ Step.a_to_x ∷ [])
    ∷ step (Step.netx_relative_l4 u8 0)
    ∷ step (Step.accept_equal 134)
    ∷ []

abbrev compiled : List Insn
compiled =
    record { code = 40; jt = 0; jf = 0; k = 4294963200 }
    ∷ record { code = 21; jt = 1; jf = 0; k = 34525 }
    ∷ record { code = 6; jt = 0; jf = 0; k = 0 }
    ∷ record { code = 129; jt = 0; jf = 0; k = 40 }
    ∷ record { code = 48; jt = 0; jf = 0; k = 4293918726 }
    ∷ record { code = 21; jt = 0; jf = 5; k = 0 }
    ∷ record { code = 80; jt = 0; jf = 0; k = 4293918721 }
    ∷ record { code = 4; jt = 0; jf = 0; k = 1 }
    ∷ record { code = 100; jt = 0; jf = 0; k = 3 }
    ∷ record { code = 12; jt = 0; jf = 0; k = 0 }
    ∷ record { code = 7; jt = 0; jf = 0; k = 0 }
    ∷ record { code = 80; jt = 0; jf = 0; k = 4293918720 }
    ∷ record { code = 21; jt = 0; jf = 1; k = 134 }
    ∷ record { code = 6; jt = 0; jf = 0; k = 4294967295 }
    ∷ []

compiles : filter advertisements ≡ some compiled
unfolding filter part instructions block
compiles = refl

-- At the start A and X are 0.
abbrev start : Bound
start = record { a = 0; x = 0 }

abbrev ended : Bound
ended = record { a = 255; x = 2088 }

obeys : filter_rule advertisements start ≡ some ended
unfolding filter_rule part_rule step_rule block_rule
obeys = refl

runs : machine.exec (compiled ++ reject ∷ []) 0 0 ≡ 0xFFFFFFFF
unfolding machine platform_packages_module.Classic.Machine.big_endian
runs = refl

filter-meaning_example :
    machine.exec (compiled ++ reject ∷ []) 0 0
    ≡ finish machine (reject ∷ []) (meaning machine advertisements 0 0)
filter-meaning_example =
    filter-meaning machine machine-IsClassic advertisements compiled (reject ∷ []) start ended 0 0
      compiles obeys (omega arith) (omega arith)

filter-IsTyped_example : IsTyped machine compiled ended 0 0
filter-IsTyped_example =
    filter-IsTyped machine machine-IsClassic advertisements compiled start ended 0 0 compiles obeys
      (omega arith) (omega arith)

filter-Lands_example : Lands 1 compiled
filter-Lands_example = filter-Lands advertisements compiled 1 compiles (omega arith)
