-- ===== src/Classic/Steps.antt =====
-- The macros of BpfClassic.h do what their names say, one by one.
use platform_packages_module.Prelude.{
  ℕ, ◌+◌, ◌*◌, ◌%◌, ◌^◌, ◌<◌, ◌≡◌, Bool, true, false, Option, none, some, List, ◌∷◌, ◌++◌, ◌==◌,
  if◌then◌else◌, arith, refl, ◌∙◌, ap, u32,
}
use platform_packages_module.Classic.Machine.{
  Insn, stmt, jump, jgt_k, add_k, lsh_k, tax, Width, u8, bytes, Machine, IsClassic, loaded, or_drop,
  big_endian, skf_net_off, skf_ll_off,
}
use platform_packages_module.Classic.{
  accept, reject, load_mac_relative, load_net_relative, load_netx_relative_l4,
}
use platform_packages_module.Classic.Filter.{
  Step, instructions, State, keep, going, load_a, load_x, load_len, one, step_meaning, Bound,
  step_rule,
}
use platform_packages_module.Classic.Rules.{Within}

module _ (m : Machine) where
  -- What becomes of a state, if some instructions follow.
  abbrev pub finish : List Insn → State → ℕ
  finish rest (keep n) = n
  finish rest (going a x) = m.exec rest a x

-- What the macro's instructions do in front of others; nothing is asked if it does not compile.
abbrev pub Does : (m : Machine) → Option (List Insn) → List Insn → (a x : ℕ) → State → Type 0
Does m none rest a x result = Unit
Does m (some xs) rest a x result = m.exec (xs ++ rest) a x ≡ finish m rest result

mod_small : (n k : ℕ) → n < k → n % k ≡ n
mod_small n k h = grind (arith, h)

one-Does :
    (m : Machine) (b : Bool) (i : Insn) (rest : List Insn) (a x : ℕ) (result : State)
    → m.exec (i ∷ rest) a x ≡ finish m rest result
    → Does m (one (if b then some i else none)) rest a x result
one-Does m true i rest a x result h = h
one-Does m false i rest a x result h = tt

loaded-byte : (byte : ℕ → Option ℕ) (from : ℕ) → loaded byte u8 from ≡ byte from
unfolding big_endian
loaded-byte byte from = ground arith

or_drop-load_a :
    (m : Machine) (rest : List Insn) (o : Option ℕ) (x : ℕ)
    → (or_drop o λ v. m.exec rest v x) ≡ finish m rest (load_a o x)
or_drop-load_a m rest none x = refl
or_drop-load_a m rest (some v) x = refl

or_drop-load_x :
    (m : Machine) (rest : List Insn) (o : Option ℕ) (a : ℕ)
    → (or_drop o λ b. m.exec rest a (4 * (b % 16))) ≡ finish m rest (load_x o a)
or_drop-load_x m rest none a = refl
or_drop-load_x m rest (some v) a = refl

module _ (m : Machine) (classic : IsClassic m) where
  load_mac_relative_lem :
      (w : Width) (ofs a x : ℕ) (rest : List Insn)
      → ofs < 0x100000
      → m.exec (load_mac_relative w ofs ∷ rest) a x ≡ finish m rest (load_a (loaded m.mac w ofs) x)
  load_mac_relative_lem w ofs a x rest h =
      rw (mod_small (skf_ll_off + ofs) (2 ^ 32) (omega arith), classic.ld_mac w ofs a x rest h)
        (or_drop-load_a m rest (loaded m.mac w ofs) x)

  load_net_relative_lem :
      (w : Width) (ofs a x : ℕ) (rest : List Insn)
      → ofs < 0xFF000
      → m.exec (load_net_relative w ofs ∷ rest) a x ≡ finish m rest (load_a (loaded m.net w ofs) x)
  load_net_relative_lem w ofs a x rest h =
      rw (mod_small (skf_net_off + ofs) (2 ^ 32) (omega arith), classic.ld_net w ofs a x rest h)
        (or_drop-load_a m rest (loaded m.net w ofs) x)

  load_netx_relative_l4_lem :
      (w : Width) (ofs a x : ℕ) (rest : List Insn)
      → x + ofs < 0x100000
      → m.exec (load_netx_relative_l4 w ofs ∷ rest) a x
        ≡ finish m rest (load_a (loaded m.net w (x + ofs)) x)
  load_netx_relative_l4_lem w ofs a x rest h =
      rw (mod_small (skf_net_off + ofs) (2 ^ 32) (omega arith), classic.ld_netx w ofs a x rest h)
        (or_drop-load_a m rest (loaded m.net w (x + ofs)) x)

  exthdr_len :
      (rest : List Insn) (x : ℕ) (o : Option ℕ)
      → ((b : ℕ) → o ≡ some b → b < 256)
      → finish m (stmt add_k 1 ∷ stmt lsh_k 3 ∷ rest) (load_a (o) x) ≡ finish m rest (load_len o x)
  exthdr_len rest x none small = refl
  exthdr_len rest x (some b) small =
      classic.add_k 1 b x (stmt lsh_k 3 ∷ rest)
      ∙ classic.lsh_k 3 (u32 (b + 1)) x rest (omega arith)
      ∙ ap (λ (n : ℕ). m.exec rest n x) (omega (arith, small b refl))

  pub step-Does :
      (s : Step) (b c : Bound) (rest : List Insn) (a x : ℕ)
      → step_rule s b ≡ some c
      → Within b (going a x)
      → Does m (instructions s) rest a x (step_meaning m s a x)
  unfolding instructions step_rule
  step-Does Step.accept_it b c rest a x r h = classic.ret 0xFFFFFFFF a x rest
  step-Does Step.reject_it b c rest a x r h = classic.ret 0 a x rest
  step-Does (Step.accept_equal v) b c rest a x r h =
      ground (arith, classic.jeq v 0 1 a x (accept ∷ rest), classic.ret 0xFFFFFFFF a x rest)
  step-Does (Step.not_equal v) b c rest a x r h =
      ground (arith, classic.jeq v 1 0 a x (reject ∷ rest), classic.ret 0 a x rest)
  step-Does (Step.less_than v) b c rest a x r h =
      ground (arith, classic.jge v 1 0 a x (reject ∷ rest), classic.ret 0 a x rest)
  step-Does (Step.greater_than v) b c rest a x r h =
      ground (arith, classic.jgt v 0 1 a x (reject ∷ rest), classic.ret 0 a x rest)
  step-Does (Step.any_masked_bits v) b c rest a x r h =
      ground (arith, classic.jset v 0 1 a x (reject ∷ rest), classic.ret 0 a x rest)
  step-Does (Step.not_in_range lo hi) b c rest a x r h = ground (
    arith,
    classic.jge lo 0 1 a x (jump jgt_k hi 0 1 ∷ reject ∷ rest),
    classic.jgt hi 0 1 a x (reject ∷ rest),
    classic.ret 0 a x rest,
  )
  step-Does Step.skb_protocol b c rest a x r h = classic.ld_protocol a x rest
  step-Does (Step.mac_relative w ofs) b c rest a x r h =
      load_mac_relative_lem w ofs a x rest (ground (arith, r))
  step-Does (Step.net_relative w ofs) b c rest a x r h =
      load_net_relative_lem w ofs a x rest (ground (arith, r))
  step-Does (Step.netx_relative_l4 w ofs) b c rest a x r h =
      load_netx_relative_l4_lem w ofs a x rest (ground (arith, r, h.1))
  step-Does (Step.ipv4_field w f) b c rest a x r h =
      one-Does m (f.size == bytes w) (load_net_relative w f.offset) rest a x
        (load_a (loaded m.net w f.offset) x)
        (load_net_relative_lem w f.offset a x rest (ground (arith, r)))
  step-Does (Step.ipv6_field w f) b c rest a x r h =
      one-Does m (f.size == bytes w) (load_net_relative w f.offset) rest a x
        (load_a (loaded m.net w f.offset) x)
        (load_net_relative_lem w f.offset a x rest (ground (arith, r)))
  step-Does Step.ipv4_hlen b c rest a x r h =
      classic.ldx_msh a x rest ∙ or_drop-load_x m rest (m.net 0) a
  step-Does Step.ipv6_hlen b c rest a x r h = classic.ldx_imm 40 a x rest
  step-Does Step.v6fraghdr_len b c rest a x r h = classic.ld_imm 8 a x rest
  step-Does Step.v6exthdr_len b c rest a x r h =
      load_netx_relative_l4_lem u8 1 a x (stmt add_k 1 ∷ stmt lsh_k 3 ∷ rest)
        (ground (arith, r, h.1))
      ∙ ap (λ (o : Option ℕ). finish m (stmt add_k 1 ∷ stmt lsh_k 3 ∷ rest) (load_a o x))
          (loaded-byte m.net (x + 1))
      ∙ exthdr_len rest x (m.net (x + 1)) (classic.net_byte (x + 1))
  step-Does Step.a_to_x b c rest a x r h =
      classic.add_x 0 a x (stmt tax 0 ∷ rest)
      ∙ classic.tax 0 (u32 (a + x)) x rest
      ∙ ap (λ (n : ℕ). m.exec rest n n) (mod_small (a + x) (2 ^ 32) (ground (arith, r, h.0, h.1)))
