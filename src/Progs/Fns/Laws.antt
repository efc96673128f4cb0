-- ===== src/Progs/Fns/Laws.antt =====
-- What uprobestats_bpf_fns.h guarantees to the programs, whatever the probed process holds.
use platform_packages_module.Prelude.{
  ℕ, zero, suc, ◌+◌, ◌^◌, ◌<◌, ◌≤◌, ◌≡◌, List, [], ◌∷◌, ◌++◌, true, arith, All, ◌==◌, if◌then◌else◌,
  length, drop, length-append, length-drop, le, u64,
}
use platform_packages_module.Progs.Kernel.{Helpers, IsDocumented, IsByte, has_nul}
use platform_packages_module.Progs.Fns.{store, read_word, string_size, record_string}

-- What a reader of a C string sees: the bytes before the first NUL.
unfoldable pub c_string : List ℕ → List ℕ
c_string [] = []
c_string (b ∷ bs) = if b == 0 then [] else b ∷ c_string bs

c_string-append : (xs ys : List ℕ) → has_nul xs ≡ true → c_string (xs ++ ys) ≡ c_string xs
unfolding c_string
c_string-append [] ys h = cc
c_string-append (x ∷ xs) ys h = ground (arith, c_string-append xs ys)

has_nul-append : (xs ys : List ℕ) → has_nul xs ≡ true → has_nul (xs ++ ys) ≡ true
has_nul-append [] ys h = cc
has_nul-append (x ∷ xs) ys h = ground (arith, has_nul-append xs ys)

length-store : (dest bs : List ℕ) → length bs ≤ length dest → length (store dest bs) ≡ length dest
unfolding store
length-store dest bs h =
    omega (arith, length-append bs (drop (length bs) dest), length-drop (length bs) dest)

-- Little-endian bytes stand for a number below a power of 256.
le-lt : (bs : List ℕ) → All IsByte bs → (n : ℕ) → length bs ≡ n → le bs < 256 ^ n
le-lt [] h zero e = omega arith
le-lt [] h (suc n) e = absurd (omega arith)
le-lt (b ∷ bs) h zero e = absurd (omega arith)
le-lt (b ∷ bs) h (suc n) e = grind (arith, le-lt bs h.1 n (omega arith))

-- An array after `recordString` filled it from the Java string at an address: it has the size that
-- it had, holds a C string, and that string is the one that the kernel copied, so nothing of what
-- stood in the array before can be read.
pub record IsRecorded (k : Helpers) (jstring max_length : ℕ) (old new : List ℕ) : Type 0 where
  pub size : length new ≡ length old
  pub nul : has_nul new ≡ true
  pub text :
      c_string new
      ≡ c_string (k.probe_read_user_str (string_size k jstring max_length) (u64 (jstring + 16)))

module _ {k : Helpers} (doc : IsDocumented k) where
  read-lt : (n a : ℕ) → le (k.probe_read_user n a).bytes < 256 ^ n
  read-lt n a = le-lt _ (doc.read_bytes n a) n (doc.read_size n a)

  -- A four byte read gives a 32-bit number.
  pub read_word-lt : (a : ℕ) → read_word k 4 a < 2 ^ 32
  unfolding read_word
  read_word-lt a = read-lt 4 (u64 a)

  -- The size that is asked for is positive and within the limit: the length that the probed process
  -- claims cannot make it wrap.
  pub string_size_bounds :
      (jstring max_length : ℕ)
      → 0 < max_length
      → (0 < string_size k jstring max_length) × (string_size k jstring max_length ≤ max_length)
  unfolding string_size
  string_size_bounds jstring max_length h = ground (arith, read-lt 4 (u64 (jstring + 8)))

  -- `recordString` stays within its destination and leaves a C string there, exactly the text that
  -- the kernel copied, if the limit that it is given is positive and at most the array's size.
  pub record_string-IsRecorded :
      (jstring max_length : ℕ) (dest : List ℕ)
      → 0 < max_length
      → max_length ≤ length dest
      → IsRecorded k jstring max_length dest (record_string k jstring max_length dest)
  unfolding record_string store
  record_string-IsRecorded jstring max_length dest h fits = record {
    size = length-store dest bytes (omega (arith, bounds, doc.str_size size address));
    nul = has_nul-append bytes _ (doc.str_nul size address bounds.0);
    text = c_string-append bytes _ (doc.str_nul size address bounds.0);
  }
    where
      size : ℕ
      size = string_size k jstring max_length

      address : ℕ
      address = u64 (jstring + 16)

      bytes : List ℕ
      bytes = k.probe_read_user_str size address

      bounds : (0 < size) × (size ≤ max_length)
      bounds = string_size_bounds jstring max_length h
