-- ===== src/Loader/Stream.antt =====
-- The `ifstream` of an object file (bpfloader/UprobeStatsBpfLoad.cpp), and results of reading it.
pub mod Laws
use platform_packages_module.Prelude.{
  ◌≡◌, refl, ◌⊎◌, inl, inr, ℕ, ◌+◌, ◌^◌, List, Bool, true, false, not, ◌||◌, leb, ◌==◌,
  if◌then◌else◌, Text, length, take, drop, ℤ, negsuc,
}

-- The bytes of the file, and the stream's fail bit, which nothing resets.
pub record Stream : Type 0 where
  pub bytes : List ℕ
  pub failed : Bool

-- The stream of a file that was just opened.
abbrev pub opened : List ℕ → Stream
opened bytes = record { bytes = bytes; failed = false }

-- What a function of the loader answers: what it read, the code of an error, or a read outside a
-- vector, which is undefined.
pub data Answer (A : Type 0) : Type 0 where
  value : A → Answer A
  code : ℤ → Answer A
  outside : Answer A

-- To split on an answer and keep the equation.
pub Answer-cases :
    {A : Type 0} (m : Answer A)
    → ((m ≡ outside) ⊎ ((c : ℤ) × (m ≡ code c))) ⊎ ((a : A) × (m ≡ value a))
Answer-cases (value a) = inr (a, refl)
Answer-cases (code c) = inl (inr (c, refl))
Answer-cases outside = inl (inl refl)

abbrev pub Reader : Type 0 → Type 0
Reader A = Stream → Stream × Answer A

-- After an error, or after a read outside a vector, the rest does not run.
abbrev pub and_then : {A B : Type 0} → Stream × Answer A → (A → Reader B) → Stream × Answer B
and_then (s, value a) f = f a s
and_then (s, code c) f = (s, code c)
and_then (s, outside) f = (s, outside)

infixl 5 ◌>>=◌
abbrev pub ◌>>=◌ : {A B : Type 0} → Reader A → (A → Reader B) → Reader B
(m >>= f) s = and_then (m s) f

-- The answer without the stream.
abbrev pub answer_of : {A : Type 0} → Stream × Answer A → Answer A
answer_of (s, answer) = answer

abbrev pub pure : {A : Type 0} → A → Reader A
pure a s = (s, value a)

abbrev pub fail : {A : Type 0} → ℤ → Reader A
fail c s = (s, code c)

abbrev pub undefined : {A : Type 0} → Reader A
undefined s = (s, outside)

-- `if (ret) return ret;` is left out: the answer is a value for the caller, whatever it is.
abbrev pub tried : {A : Type 0} → Stream × Answer A → Stream × Answer (Answer A)
tried (s, value a) = (s, value (value a))
tried (s, code c) = (s, value (code c))
tried (s, outside) = (s, outside)

abbrev pub try : {A : Type 0} → Reader A → Reader (Answer A)
try m s = tried (m s)

abbrev broken : Stream → Stream
broken s = record s { failed = true }

-- `seekg(offset)`, -1 if the stream has failed, and `read` of `n` bytes, `short` if there are fewer.
-- A read of nothing succeeds past the end, too. An offset is a signed 64-bit number for the stream, so one from 2 ^ 63 on fails.
unfoldable pub read_at : (offset n : ℕ) (short : ℤ) → Reader (List ℕ)
read_at offset n short s =
    if s.failed || leb (2 ^ 63) offset
    then (broken s, code (negsuc 0))
    else if leb (offset + n) (length s.bytes) || (n == 0)
    then (s, value (take n (drop offset s.bytes)))
    else (broken s, code short)
