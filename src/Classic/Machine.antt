-- ===== src/Classic/Machine.antt =====
-- The kernel's machine for classic BPF, which is not part of the program: a parameter, with what the
-- kernel documents of the instructions that the macros of BpfClassic.h are made of. The opcodes and
-- offsets are those of linux/filter.h.
use Prim.Native.Nat.{bit_and}
use platform_packages_module.Prelude.{
  ℕ, zero, suc, ◌+◌, ◌*◌, ◌^◌, ◌%◌, ◌<◌, ◌≡◌, Option, none, some, List, ◌∷◌, ◌==◌, ltb, leb,
  if◌then◌else◌, u32, drop,
}

-- `struct sock_filter`
pub record Insn : Type 0 where
  pub code : ℕ
  pub jt : ℕ
  pub jf : ℕ
  pub k : ℕ

-- `BPF_STMT`
abbrev pub stmt : (code k : ℕ) → Insn
stmt c k = record { code = c; jt = 0; jf = 0; k = k }

-- `BPF_JUMP`
abbrev pub jump : (code k jt jf : ℕ) → Insn
jump c k jt jf = record { code = c; jt = jt; jf = jf; k = k }

abbrev pub ret_k : ℕ
ret_k = 0x06

abbrev pub jeq_k : ℕ
jeq_k = 0x15

abbrev pub jgt_k : ℕ
jgt_k = 0x25

abbrev pub jge_k : ℕ
jge_k = 0x35

abbrev pub jset_k : ℕ
jset_k = 0x45

abbrev pub ldx_msh : ℕ
ldx_msh = 0xb1

abbrev pub ldx_imm : ℕ
ldx_imm = 0x81

abbrev pub ld_imm : ℕ
ld_imm = 0x00

abbrev pub add_k : ℕ
add_k = 0x04

abbrev pub lsh_k : ℕ
lsh_k = 0x64

abbrev pub add_x : ℕ
add_x = 0x0c

abbrev pub tax : ℕ
tax = 0x07

-- `(__u32)SKF_AD_OFF`, `SKF_NET_OFF` and `SKF_LL_OFF`
abbrev pub skf_ad_off : ℕ
skf_ad_off = 0xFFFFF000

abbrev pub skf_net_off : ℕ
skf_net_off = 0xFFF00000

abbrev pub skf_ll_off : ℕ
skf_ll_off = 0xFFE00000

-- The widths of a load: a byte, or two or four bytes in network order.
pub data Width : Type 0 where
  u8 be16 be32 : Width

abbrev pub bytes : Width → ℕ
bytes u8 = 1
bytes be16 = 2
bytes be32 = 4

-- `BPF_LD | width | BPF_ABS` and `BPF_LD | width | BPF_IND`
abbrev pub ld_abs : Width → ℕ
ld_abs u8 = 0x30
ld_abs be16 = 0x28
ld_abs be32 = 0x20

abbrev pub ld_ind : Width → ℕ
ld_ind u8 = 0x50
ld_ind be16 = 0x48
ld_ind be32 = 0x40

-- The machine at a packet: the answer of the rest of a program at the accumulator A and the index X,
-- how many bytes of the packet are kept; and the packet's protocol and its bytes counted from the
-- link layer's and the network layer's header, nothing outside the packet.
pub record Machine : Type 0 where
  pub exec : List Insn → (a x : ℕ) → ℕ
  pub protocol : ℕ
  pub mac : ℕ → Option ℕ
  pub net : ℕ → Option ℕ

-- The number that some bytes in network order stand for, after those that came before.
unfoldable pub big_endian : (ℕ → Option ℕ) → (count from before : ℕ) → Option ℕ
big_endian byte zero from before = some before
big_endian byte (suc count) from before = elim (byte from) [
  | none ↦ none
  | some b ↦ big_endian byte count (from + 1) (before * 256 + b)
]

-- What lies in the packet at a load.
abbrev pub loaded : (ℕ → Option ℕ) → Width → (from : ℕ) → Option ℕ
loaded byte w from = big_endian byte (bytes w) from 0

-- A load outside the packet ends the program, which keeps nothing.
abbrev pub or_drop : Option ℕ → (ℕ → ℕ) → ℕ
or_drop none f = 0
or_drop (some v) f = f v

-- What is documented of the instructions. A constant address from SKF_AD_OFF on is an ancillary
-- datum; those before it from SKF_NET_OFF on are counted from the network header, and those before it
-- from SKF_LL_OFF on from the link layer's header.
pub record IsClassic (m : Machine) : Type 0 where
  pub protocol_bound : m.protocol < 2 ^ 16
  pub mac_byte : (o b : ℕ) → m.mac o ≡ some b → b < 256
  pub net_byte : (o b : ℕ) → m.net o ≡ some b → b < 256
  pub ret : (k a x : ℕ) (rest : List Insn) → m.exec (stmt ret_k k ∷ rest) a x ≡ k
  pub jeq :
      (k jt jf a x : ℕ) (rest : List Insn)
      → m.exec (jump jeq_k k jt jf ∷ rest) a x ≡ m.exec (drop (if a == k then jt else jf) rest) a x
  pub jgt :
      (k jt jf a x : ℕ) (rest : List Insn)
      → m.exec (jump jgt_k k jt jf ∷ rest) a x ≡ m.exec (drop (if ltb k a then jt else jf) rest) a x
  pub jge :
      (k jt jf a x : ℕ) (rest : List Insn)
      → m.exec (jump jge_k k jt jf ∷ rest) a x ≡ m.exec (drop (if leb k a then jt else jf) rest) a x
  pub jset :
      (k jt jf a x : ℕ) (rest : List Insn)
      → m.exec (jump jset_k k jt jf ∷ rest) a x
        ≡ m.exec (drop (if bit_and a k == 0 then jf else jt) rest) a x
  pub ld_protocol :
      (a x : ℕ) (rest : List Insn)
      → m.exec (stmt (ld_abs be16) skf_ad_off ∷ rest) a x ≡ m.exec rest m.protocol x
  pub ld_mac :
      (w : Width) (ofs a x : ℕ) (rest : List Insn)
      → ofs < 0x100000
      → m.exec (stmt (ld_abs w) (skf_ll_off + ofs) ∷ rest) a x
        ≡ or_drop (loaded m.mac w ofs) λ v. m.exec rest v x
  pub ld_net :
      (w : Width) (ofs a x : ℕ) (rest : List Insn)
      → ofs < 0xFF000
      → m.exec (stmt (ld_abs w) (skf_net_off + ofs) ∷ rest) a x
        ≡ or_drop (loaded m.net w ofs) λ v. m.exec rest v x
  pub ld_netx :
      (w : Width) (ofs a x : ℕ) (rest : List Insn)
      → x + ofs < 0x100000
      → m.exec (stmt (ld_ind w) (skf_net_off + ofs) ∷ rest) a x
        ≡ or_drop (loaded m.net w (x + ofs)) λ v. m.exec rest v x
  pub ldx_msh :
      (a x : ℕ) (rest : List Insn)
      → m.exec (stmt ldx_msh skf_net_off ∷ rest) a x
        ≡ or_drop (m.net 0) λ b. m.exec rest a (4 * (b % 16))
  pub ldx_imm :
      (k a x : ℕ) (rest : List Insn) → m.exec (stmt ldx_imm k ∷ rest) a x ≡ m.exec rest a k
  pub ld_imm : (k a x : ℕ) (rest : List Insn) → m.exec (stmt ld_imm k ∷ rest) a x ≡ m.exec rest k x
  pub add_k :
      (k a x : ℕ) (rest : List Insn)
      → m.exec (stmt add_k k ∷ rest) a x ≡ m.exec rest (u32 (a + k)) x
  pub lsh_k :
      (k a x : ℕ) (rest : List Insn)
      → k < 32
      → m.exec (stmt lsh_k k ∷ rest) a x ≡ m.exec rest (u32 (a * 2 ^ k)) x
  pub add_x :
      (k a x : ℕ) (rest : List Insn)
      → m.exec (stmt add_x k ∷ rest) a x ≡ m.exec rest (u32 (a + x)) x
  pub tax : (k a x : ℕ) (rest : List Insn) → m.exec (stmt tax k ∷ rest) a x ≡ m.exec rest a a
