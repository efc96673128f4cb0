-- ===== src/Classic.antt =====
-- bpf/headers/include/bpf/BpfClassic.h: the macros for filters of classic BPF. A macro is the list of
-- the instructions that it stands for, or the one instruction. Classic.Machine is the kernel that
-- runs them, Classic.Filter what a filter means.
pub mod Machine
pub mod Filter
pub mod Rules
pub mod Steps
pub mod Laws
mod Jumps
mod Sample
mod Tests
use platform_packages_module.Prelude.{
  ℕ, ◌+◌, u32, Option, none, some, List, [], ◌∷◌, ◌==◌, if◌then◌else◌,
}
use platform_packages_module.Classic.Machine.{
  Insn, stmt, jump, ret_k, jeq_k, jgt_k, jge_k, jset_k, Width, u8, be16, be32, bytes, ld_abs,
  ld_ind, ldx_msh, ldx_imm, ld_imm, add_k, lsh_k, add_x, tax, skf_ad_off, skf_net_off, skf_ll_off,
}

-- `BPF_ACCEPT`
abbrev pub accept : Insn
accept = stmt ret_k 0xFFFFFFFF

-- `BPF_REJECT`
abbrev pub reject : Insn
reject = stmt ret_k 0

-- `BPF_JUMP_IF_NOT_EQUAL`
abbrev pub jump_if_not_equal : (v count : ℕ) → Insn
jump_if_not_equal v count = jump jeq_k v 0 count

-- `BPF2_ACCEPT_IF_EQUAL`
abbrev pub accept_if_equal : (v : ℕ) → List Insn
accept_if_equal v = jump_if_not_equal v 1 ∷ accept ∷ []

-- `BPF2_REJECT_IF_NOT_EQUAL`
abbrev pub reject_if_not_equal : (v : ℕ) → List Insn
reject_if_not_equal v = jump jeq_k v 1 0 ∷ reject ∷ []

-- `BPF2_REJECT_IF_LESS_THAN`
abbrev pub reject_if_less_than : (v : ℕ) → List Insn
reject_if_less_than v = jump jge_k v 1 0 ∷ reject ∷ []

-- `BPF2_REJECT_IF_GREATER_THAN`
abbrev pub reject_if_greater_than : (v : ℕ) → List Insn
reject_if_greater_than v = jump jgt_k v 0 1 ∷ reject ∷ []

-- `BPF3_REJECT_IF_NOT_IN_RANGE`
abbrev pub reject_if_not_in_range : (lo hi : ℕ) → List Insn
reject_if_not_in_range lo hi = jump jge_k lo 0 1 ∷ jump jgt_k hi 0 1 ∷ reject ∷ []

-- `BPF2_REJECT_IF_ANY_MASKED_BITS_SET`
abbrev pub reject_if_any_masked_bits_set : (v : ℕ) → List Insn
reject_if_any_masked_bits_set v = jump jset_k v 0 1 ∷ reject ∷ []

-- `BPF_LOAD_SKB_PROTOCOL`; SKF_AD_PROTOCOL is 0.
abbrev pub load_skb_protocol : Insn
load_skb_protocol = stmt (ld_abs be16) (u32 (skf_ad_off + 0))

-- `BPF_LOAD_MAC_RELATIVE_U8`, `BE16` and `BE32`
abbrev pub load_mac_relative : Width → (ofs : ℕ) → Insn
load_mac_relative w ofs = stmt (ld_abs w) (u32 (skf_ll_off + ofs))

-- `BPF_LOAD_NET_RELATIVE_U8`, `BE16` and `BE32`
abbrev pub load_net_relative : Width → (ofs : ℕ) → Insn
load_net_relative w ofs = stmt (ld_abs w) (u32 (skf_net_off + ofs))

-- A field of `struct iphdr` or `struct ipv6hdr`: its place and its size.
pub record Field : Type 0 where
  pub offset : ℕ
  pub size : ℕ

-- `BPF_LOAD_IPV4_U8`, `BE16` and `BE32`; nothing if the static assertion on the field's size fails.
abbrev pub load_ipv4 : Width → Field → Option Insn
load_ipv4 w f = if f.size == bytes w then some (load_net_relative w f.offset) else none

-- `BPF_LOAD_IPV6_U8`, `BE16` and `BE32`
abbrev pub load_ipv6 : Width → Field → Option Insn
load_ipv6 w f = if f.size == bytes w then some (load_net_relative w f.offset) else none

-- `BPF_LOADX_NET_RELATIVE_IPV4_HLEN`
abbrev pub loadx_net_relative_ipv4_hlen : Insn
loadx_net_relative_ipv4_hlen = stmt ldx_msh skf_net_off

-- `BPF_LOADX_CONSTANT_IPV6_HLEN`; `struct ipv6hdr` has 40 bytes.
abbrev pub loadx_constant_ipv6_hlen : Insn
loadx_constant_ipv6_hlen = stmt ldx_imm 40

-- `BPF_LOAD_NETX_RELATIVE_L4_U8`, `BE16` and `BE32`
abbrev pub load_netx_relative_l4 : Width → (ofs : ℕ) → Insn
load_netx_relative_l4 w ofs = stmt (ld_ind w) (u32 (skf_net_off + ofs))

-- `BPF_LOAD_NETX_RELATIVE_ICMP_TYPE` and `ICMP_CODE`
abbrev pub load_netx_relative_icmp_type : Insn
load_netx_relative_icmp_type = load_netx_relative_l4 u8 0

abbrev pub load_netx_relative_icmp_code : Insn
load_netx_relative_icmp_code = load_netx_relative_l4 u8 1

-- `BPF_LOAD_NETX_RELATIVE_V6EXTHDR_NEXTHDR`
abbrev pub load_netx_relative_v6exthdr_nexthdr : Insn
load_netx_relative_v6exthdr_nexthdr = load_netx_relative_l4 u8 0

-- `BPF_LOAD_CONSTANT_V6FRAGHDR_LEN`
abbrev pub load_constant_v6fraghdr_len : Insn
load_constant_v6fraghdr_len = stmt ld_imm 8

-- `BPF3_LOAD_NETX_RELATIVE_V6EXTHDR_LEN`
abbrev pub load_netx_relative_v6exthdr_len : List Insn
load_netx_relative_v6exthdr_len = load_netx_relative_l4 u8 1 ∷ stmt add_k 1 ∷ stmt lsh_k 3 ∷ []

-- `BPF2_ADD_A_TO_X`
abbrev pub add_a_to_x : List Insn
add_a_to_x = stmt add_x 0 ∷ stmt tax 0 ∷ []

-- `BPF_LOAD_NETX_RELATIVE_SRC_PORT` and `DST_PORT`
abbrev pub load_netx_relative_src_port : Insn
load_netx_relative_src_port = load_netx_relative_l4 be16 0

abbrev pub load_netx_relative_dst_port : Insn
load_netx_relative_dst_port = load_netx_relative_l4 be16 2
