-- ===== src/Loader/Sections/Instructions.antt =====
-- Reading back the instructions that a compiler wrote, as the kernel's <linux/bpf.h> lays them out.
use platform_packages_module.Prelude.{
  ℕ, ◌+◌, ◌-◌, ◌*◌, ◌/◌, ◌%◌, ◌^◌, ◌<◌, List, [], ◌∷◌, ◌++◌, ◌≡◌, length, arith, refl, ap, ◌∙◌, All,
  length-append, ℤ, pos, negsuc, to_int32, le,
}
use platform_packages_module.Loader.Bpffs.{Insn}
use platform_packages_module.Loader.Elf.{structs}
use platform_packages_module.Loader.Elf.Image.{
  bytes_of, take-append, drop-append, le-bytes_of_2, le-bytes_of_4,
}
use platform_packages_module.Loader.Sections.{insn_of}

-- A signed number as a word of 32 bits.
abbrev pub word_of : ℤ → ℕ
word_of (pos n) = n
word_of (negsuc n) = 2 ^ 32 - 1 - n

abbrev pub FitsInt : ℤ → Type 0
FitsInt (pos n) = n < 2 ^ 31
FitsInt (negsuc n) = n < 2 ^ 31

-- The fields of an instruction fit.
abbrev pub IsInsn : Insn → Type 0
IsInsn i = (i.code < 256) × (i.dst_reg < 16) × (i.src_reg < 16) × (i.off < 2 ^ 16) × FitsInt i.imm

abbrev pub insn_bytes : Insn → List ℕ
insn_bytes i =
    i.code ∷ (i.dst_reg + 16 * i.src_reg) ∷ (bytes_of 2 i.off ++ bytes_of 4 (word_of i.imm))

abbrev pub insns_bytes : List Insn → List ℕ
insns_bytes [] = []
insns_bytes (i ∷ is) = insn_bytes i ++ insns_bytes is

word_of-fits : (z : ℤ) → FitsInt z → word_of z < 2 ^ 32
word_of-fits (pos n) h = omega (arith, h)
word_of-fits (negsuc n) h = omega (arith, h)

to_int32-word_of : (z : ℤ) → FitsInt z → to_int32 (word_of z) ≡ z
to_int32-word_of (pos n) h = ground (arith, h)
to_int32-word_of (negsuc n) h = ground (arith, h)

insn_of-insn_bytes : (i : Insn) → IsInsn i → insn_of (insn_bytes i) ≡ i
insn_of-insn_bytes i (c, d, s, o, m) =
    let low : (i.dst_reg + 16 * i.src_reg + 256 * 0) % 16 ≡ i.dst_reg = omega (arith, d) in
    let high : (i.dst_reg + 16 * i.src_reg + 256 * 0) / 16 ≡ i.src_reg = omega (arith, d) in
    let imm : to_int32 (le (bytes_of 4 (word_of i.imm))) ≡ i.imm =
      ap to_int32 (le-bytes_of_4 (word_of i.imm) (word_of-fits i.imm m))
      ∙ to_int32-word_of i.imm m in
    let code : i.code + 256 * 0 ≡ i.code = omega arith in
    λ k. record {
      code = code k;
      dst_reg = low k;
      src_reg = high k;
      off = le-bytes_of_2 i.off o k;
      imm = imm k;
    }

length-insns_bytes : (is : List Insn) → length (insns_bytes is) ≡ 8 * length is
length-insns_bytes [] = refl
length-insns_bytes (i ∷ is) =
    omega (arith, length-append (insn_bytes i) (insns_bytes is), length-insns_bytes is)

structs-counted :
    (is : List Insn) → All IsInsn is → structs insn_of 8 (length is) (insns_bytes is) ≡ is
unfolding structs
structs-counted [] w = refl
structs-counted (i ∷ is) (w, ws) =
    let first =
      ap insn_of (take-append (insn_bytes i) (insns_bytes is) 8 refl) ∙ insn_of-insn_bytes i w in
    let others =
      ap (λ l. structs insn_of 8 (length is) l)
        (drop-append (insn_bytes i) (insns_bytes is) 8 0 refl)
      ∙ structs-counted is ws in
    λ k. first k ∷ others k

-- The instructions of a program are read back as they were written, those with negative immediates
-- too, if each fits its fields.
structs-insns_bytes :
    (is : List Insn)
    → All IsInsn is
    → structs insn_of 8 (length (insns_bytes is) / 8) (insns_bytes is) ≡ is
structs-insns_bytes is w =
    let count : length (insns_bytes is) / 8 ≡ length is = omega (arith, length-insns_bytes is) in
    ap (λ n. structs insn_of 8 n (insns_bytes is)) count ∙ structs-counted is w
