-- ===== src/Resolver/Oat.antt =====
-- Art.cpp: the offset of a method from the output of oatdump. The JSON reader is a parameter: it
-- gives a line's `method` and `offset`, or nothing for a line that it cannot parse.
use platform_packages_module.Prelude.{
  ℕ, ◌+◌, ◌-◌, ◌*◌, ◌^◌, ◌≡◌, List, [], ◌∷◌, ◌++◌, Option, none, some, Bool, true, false, ◌&&◌,
  ◌||◌, ◌==◌, ltb, leb, if◌then◌else◌, All, Text, text_eq, text_eq_iff, ℤ, pos, negsuc,
}

pub record OatEntry : Type 0 where
  pub method : Text
  pub offset : Text

is_nil : Text → Bool
is_nil [] = true
is_nil (c ∷ cs) = false

-- `std::getline` until the end of the stream: lines without their ends; a last line without an end
-- counts if it is not empty.
split_lines : Text → Text → List Text
split_lines current [] = if is_nil current then [] else current ∷ []
split_lines current (c ∷ cs) =
    let end = current ∷ split_lines [] cs in
    let more = split_lines (current ++ (c ∷ [])) cs in if c == 10 then end else more

unfoldable pub lines_of : Text → List Text
unfolding split_lines is_nil
lines_of output = split_lines [] output

hex_digit : ℕ → Option ℕ
hex_digit c =
    if leb b'0' c && leb c b'9'
    then some (c - b'0')
    else if leb b'a' c && leb c b'f'
    then some (c - b'a' + 10)
    else if leb b'A' c && leb c b'F'
    then some (c - b'A' + 10)
    else none

-- The value of the leading hexadecimal digits.
hex_value : ℕ → Text → ℕ
hex_value acc [] = acc
hex_value acc (c ∷ cs) = elim (hex_digit c) [ none ↦ acc | some d ↦ hex_value (acc * 16 + d) cs ]

skip_0x : Text → Text
skip_0x [] = []
skip_0x (a ∷ []) = a ∷ []
skip_0x (a ∷ b ∷ cs) = if (a == b'0') && ((b == b'x') || (b == b'X')) then cs else a ∷ b ∷ cs

skip_space : Text → Text
skip_space [] = []
skip_space (c ∷ cs) = if (c == 32) || (leb 9 c && leb c 13) then skip_space cs else c ∷ cs

-- A value out of the range of `int` is stored as the bound that it passes.
clamp_positive : ℕ → ℤ
clamp_positive n = if ltb n (2 ^ 31) then pos n else pos (2 ^ 31 - 1)

clamp_negative : ℕ → ℤ
clamp_negative n =
    if n == 0 then pos 0 else if leb n (2 ^ 31) then negsuc (n - 1) else negsuc (2 ^ 31 - 1)

signed_hex : Text → ℤ
signed_hex [] = pos 0
signed_hex (c ∷ cs) =
    if c == b'-'
    then clamp_negative (hex_value 0 (skip_0x cs))
    else if c == b'+'
    then clamp_positive (hex_value 0 (skip_0x cs))
    else clamp_positive (hex_value 0 (skip_0x (c ∷ cs)))

-- `stream >> std::hex >> offset`
unfoldable pub parse_hex : Text → ℤ
unfolding hex_digit hex_value skip_0x skip_space clamp_positive clamp_negative signed_hex
parse_hex s = signed_hex (skip_space s)

module _ (parse : Text → Option OatEntry) (signature : Text) where
  -- The line describes the wanted method.
  unfoldable pub describes : Text → Bool
  describes line = elim (parse line) [ none ↦ false | some e ↦ text_eq e.method signature ]

  unfoldable pub offset_in : List Text → ℤ
  offset_in [] = pos 0
  offset_in (line ∷ lines) = elim (parse line) [
    | none ↦ offset_in lines
    | some e ↦
        let rest = offset_in lines in
        if text_eq e.method signature then parse_hex e.offset else rest
  ]

  -- The offset is that of the first line that describes the method.
  pub offset_in_first :
      (before : List Text) (line : Text) (after : List Text) (e : OatEntry)
      → All (λ l. describes l ≡ false) before
      → parse line ≡ some e
      → e.method ≡ signature
      → offset_in (before ++ (line ∷ after)) ≡ parse_hex e.offset
  unfolding offset_in describes
  offset_in_first [] line after e h p m = rw (p, offset_in, (text_eq_iff e.method signature).1 m)
  offset_in_first (b ∷ before) line after e h p m =
      skip (parse b) h.0 (offset_in_first before line after e h.1 p m)
    where
      skip :
          (o : Option OatEntry)
          → (elim o [ none ↦ false | some f ↦ text_eq f.method signature ]) ≡ false
          → offset_in (before ++ (line ∷ after)) ≡ parse_hex e.offset
          → (elim o [
            | none ↦ offset_in (before ++ (line ∷ after))
            | some f ↦
                let rest = offset_in (before ++ (line ∷ after)) in
                if text_eq f.method signature then parse_hex f.offset else rest
          ])
            ≡ parse_hex e.offset
      skip none miss ih = ih
      skip (some f) miss ih = rw miss ih

-- `getMethodOffsetFromOatdump`, given what oatdump prints for a file.
unfoldable pub get_method_offset_from_oatdump :
    (parse : Text → Option OatEntry) (oatdump : Text → Text) → (oat_file signature : Text) → ℤ
get_method_offset_from_oatdump parse oatdump oat_file signature =
    offset_in parse signature (lines_of (oatdump oat_file))
