-- ===== src/Classic/Sample.antt =====
-- A machine for classic BPF that behaves as documented, at a packet with a link layer header of 14 bytes.
use Prim.Native.Nat.{bit_and}
use platform_packages_module.Prelude.{
  ℕ, zero, suc, ◌+◌, ◌-◌, ◌*◌, ◌%◌, ◌^◌, ◌<◌, ◌≡◌, Option, some, List, [], ◌∷◌, ◌++◌, ◌==◌, ltb,
  leb, if◌then◌else◌, u32, drop, arith, refl, ◌∙◌, true, false, get_elem?, All,
}
use platform_packages_module.Classic.Machine.{
  Insn, stmt, Machine, IsClassic, Width, u8, be16, be32, loaded, or_drop, skf_ad_off, skf_net_off,
  skf_ll_off, ld_abs, ld_ind,
}

-- An Ethernet header of IPv6.
abbrev ethernet : List ℕ
ethernet = 51 ∷ 51 ∷ 0 ∷ 0 ∷ 0 ∷ 1 ∷ 2 ∷ 0 ∷ 0 ∷ 0 ∷ 0 ∷ 1 ∷ 134 ∷ 221 ∷ []

-- A router advertisement after an IPv6 header and one extension header.
abbrev network : List ℕ
network =
    96 ∷ 0 ∷ 0 ∷ 0 ∷ 0 ∷ 24 ∷ 0 ∷ 255 ∷ 254 ∷ 128 ∷ 0 ∷ 0 ∷ 0 ∷ 0 ∷ 0 ∷ 0 ∷ 0 ∷ 0 ∷ 0 ∷ 0 ∷ 0 ∷ 0
    ∷ 0 ∷ 1 ∷ 255 ∷ 2 ∷ 0 ∷ 0 ∷ 0 ∷ 0 ∷ 0 ∷ 0 ∷ 0 ∷ 0 ∷ 0 ∷ 0 ∷ 0 ∷ 0 ∷ 0 ∷ 1 ∷ 58 ∷ 0 ∷ 5 ∷ 2 ∷ 0
    ∷ 0 ∷ 1 ∷ 0 ∷ 134 ∷ 0 ∷ 18 ∷ 52 ∷ 64 ∷ 0 ∷ 7 ∷ 8 ∷ []

-- A load from a constant address, and from one that the index is added to.
from_constant :
    (protocol : ℕ) (mac net : ℕ → Option ℕ) → Width → (k : ℕ) → (ℕ → ℕ → ℕ → ℕ) → (x : ℕ) → ℕ
from_constant protocol mac net w k go x =
    if leb skf_ad_off k
    then go 0 protocol x
    else if leb skf_net_off k
    then (or_drop (loaded net w (k - skf_net_off)) λ v. go 0 v x)
    else (or_drop (loaded mac w (k - skf_ll_off)) λ v. go 0 v x)

from_index : (net : ℕ → Option ℕ) → Width → (k : ℕ) → (ℕ → ℕ → ℕ → ℕ) → (x : ℕ) → ℕ
from_index net w k go x = or_drop (loaded net w (x + (k - skf_net_off))) λ v. go 0 v x

-- How an instruction runs, given how the rest of the program does that is reached by passing over
-- some instructions.
run_insn : (protocol : ℕ) (mac net : ℕ → Option ℕ) → Insn → (ℕ → ℕ → ℕ → ℕ) → (a x : ℕ) → ℕ
run_insn protocol mac net i go a x =
    if i.code == 0x06
    then i.k
    else if i.code == 0x15
    then go (if a == i.k then i.jt else i.jf) a x
    else if i.code == 0x25
    then go (if ltb i.k a then i.jt else i.jf) a x
    else if i.code == 0x35
    then go (if leb i.k a then i.jt else i.jf) a x
    else if i.code == 0x45
    then go (if bit_and a i.k == 0 then i.jf else i.jt) a x
    else if i.code == 0x30
    then from_constant protocol mac net u8 i.k go x
    else if i.code == 0x28
    then from_constant protocol mac net be16 i.k go x
    else if i.code == 0x20
    then from_constant protocol mac net be32 i.k go x
    else if i.code == 0x50
    then from_index net u8 i.k go x
    else if i.code == 0x48
    then from_index net be16 i.k go x
    else if i.code == 0x40
    then from_index net be32 i.k go x
    else if i.code == 0xb1
    then (or_drop (net 0) λ b. go 0 a (4 * (b % 16)))
    else if i.code == 0x81
    then go 0 a i.k
    else if i.code == 0x00
    then go 0 i.k x
    else if i.code == 0x04
    then go 0 (u32 (a + i.k)) x
    else if i.code == 0x64
    then go 0 (u32 (a * 2 ^ i.k)) x
    else if i.code == 0x0c
    then go 0 (u32 (a + x)) x
    else if i.code == 0x07
    then go 0 a a
    else 0

module _ (protocol : ℕ) (mac net : ℕ → Option ℕ) where
  -- A program, of which some instructions are passed over.
  run_from : List Insn → (skip a x : ℕ) → ℕ
  run_from [] skip a x = 0
  run_from (i ∷ is) (suc skip) a x = run_from is skip a x
  run_from (i ∷ is) zero a x = run_insn protocol mac net i (run_from is) a x

  run_from-drop :
      (is : List Insn) (skip a x : ℕ) → run_from is skip a x ≡ run_from (drop skip is) 0 a x
  unfolding run_from
  run_from-drop is zero a x = refl
  run_from-drop [] (suc skip) a x = refl
  run_from-drop (i ∷ is) (suc skip) a x = run_from-drop is skip a x

get_elem?-small : (l : List ℕ) → All (λ b. b < 256) l → (o b : ℕ) → get_elem? l o ≡ some b → b < 256
get_elem?-small [] h o b e = cc
get_elem?-small (c ∷ l) (h, g) zero b e = ground (arith, e, h)
get_elem?-small (c ∷ l) (h, g) (suc o) b e = get_elem?-small l g o b e

abbrev mac_at : ℕ → Option ℕ
mac_at = get_elem? (ethernet ++ network)

abbrev net_at : ℕ → Option ℕ
net_at = get_elem? network

unfoldable pub machine : Machine
unfolding run_from run_insn from_constant from_index
machine = record {
  exec = λ is. run_from 0x86DD mac_at net_at is 0;
  protocol = 0x86DD;
  mac = mac_at;
  net = net_at;
}

minus : (n k : ℕ) → n + k - n ≡ k
minus n k = omega arith

module _ (protocol : ℕ) (mac net : ℕ → Option ℕ) (go : ℕ → ℕ → ℕ → ℕ) (w : Width) where
  from_constant-mac :
      (ofs x : ℕ)
      → ofs < 0x100000
      → from_constant protocol mac net w (skf_ll_off + ofs) go x
        ≡ or_drop (loaded mac w ofs) λ v. go 0 v x
  unfolding from_constant
  from_constant-mac ofs x h =
      let ad : leb skf_ad_off (skf_ll_off + ofs) ≡ false = ground (arith, h) in
      let nt : leb skf_net_off (skf_ll_off + ofs) ≡ false = ground (arith, h) in
      rw (ad, nt, minus skf_ll_off ofs) refl

  from_constant-net :
      (ofs x : ℕ)
      → ofs < 0xFF000
      → from_constant protocol mac net w (skf_net_off + ofs) go x
        ≡ or_drop (loaded net w ofs) λ v. go 0 v x
  unfolding from_constant
  from_constant-net ofs x h =
      let ad : leb skf_ad_off (skf_net_off + ofs) ≡ false = ground (arith, h) in
      let nt : leb skf_net_off (skf_net_off + ofs) ≡ true = ground (arith, h) in
      rw (ad, nt, minus skf_net_off ofs) refl

  from_index-net :
      (ofs x : ℕ)
      → from_index net w (skf_net_off + ofs) go x ≡ or_drop (loaded net w (x + ofs)) λ v. go 0 v x
  unfolding from_index
  from_index-net ofs x = rw (minus skf_net_off ofs) refl

module _ (protocol : ℕ) (mac net : ℕ → Option ℕ) (go : ℕ → ℕ → ℕ → ℕ) where
  run_insn-abs :
      (w : Width) (k a x : ℕ)
      → run_insn protocol mac net (stmt (ld_abs w) k) go a x
        ≡ from_constant protocol mac net w k go x
  unfolding run_insn
  run_insn-abs u8 k a x = refl
  run_insn-abs be16 k a x = refl
  run_insn-abs be32 k a x = refl

  run_insn-ind :
      (w : Width) (k a x : ℕ)
      → run_insn protocol mac net (stmt (ld_ind w) k) go a x ≡ from_index net w k go x
  unfolding run_insn
  run_insn-ind u8 k a x = refl
  run_insn-ind be16 k a x = refl
  run_insn-ind be32 k a x = refl

pub machine-IsClassic : IsClassic machine
unfolding machine run_from run_insn from_constant
machine-IsClassic = record {
  protocol_bound = omega arith;
  mac_byte = get_elem?-small (ethernet ++ network) (ground arith);
  net_byte = get_elem?-small network (ground arith);
  ret = λ k a x is. refl;
  jeq = λ k jt jf a x is. run_from-drop 0x86DD mac_at net_at is (if a == k then jt else jf) a x;
  jgt = λ k jt jf a x is. run_from-drop 0x86DD mac_at net_at is (if ltb k a then jt else jf) a x;
  jge = λ k jt jf a x is. run_from-drop 0x86DD mac_at net_at is (if leb k a then jt else jf) a x;
  jset = λ k jt jf a x is.
      run_from-drop 0x86DD mac_at net_at is (if bit_and a k == 0 then jf else jt) a x;
  ld_protocol = λ a x is. refl;
  ld_mac = λ w ofs a x is h.
      run_insn-abs 0x86DD mac_at net_at (run_from 0x86DD mac_at net_at is) w (skf_ll_off + ofs) a x
      ∙ from_constant-mac 0x86DD mac_at net_at (run_from 0x86DD mac_at net_at is) w ofs x h;
  ld_net = λ w ofs a x is h.
      run_insn-abs 0x86DD mac_at net_at (run_from 0x86DD mac_at net_at is) w (skf_net_off + ofs) a x
      ∙ from_constant-net 0x86DD mac_at net_at (run_from 0x86DD mac_at net_at is) w ofs x h;
  ld_netx = λ w ofs a x is h.
      run_insn-ind 0x86DD mac_at net_at (run_from 0x86DD mac_at net_at is) w (skf_net_off + ofs) a x
      ∙ from_index-net 0x86DD mac_at net_at (run_from 0x86DD mac_at net_at is) w ofs x;
  ldx_msh = λ a x is. refl;
  ldx_imm = λ k a x is. refl;
  ld_imm = λ k a x is. refl;
  add_k = λ k a x is. refl;
  lsh_k = λ k a x is h. refl;
  add_x = λ k a x is. refl;
  tax = λ k a x is. refl;
}
