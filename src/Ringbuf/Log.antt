-- ===== src/Ringbuf/Log.antt =====
-- What a ring buffer holds between the two positions, without its layout: a log of entries.
use platform_packages_module.Prelude.{
  ℕ, ◌+◌, ◌*◌, ◌/◌, ◌%◌, ◌^◌, ◌<◌, ◌≡◌, ◌≢◌, List, [], ◌∷◌, ◌++◌, ◌==◌, if◌then◌else◌, u64, le,
  length,
}
use platform_packages_module.Ringbuf.{Ring, consumed, wrong_size, Consumed, bytes_at, header_size}

-- An entry: reserved and not yet committed, committed as discarded, or committed with its bytes.
pub data Entry : Type 0 where
  reserved : ℕ → Entry
  discarded : ℕ → Entry
  sample : List ℕ → Entry

-- The length that an entry was reserved with.
abbrev pub entry_length : Entry → ℕ
entry_length (reserved n) = n
entry_length (discarded n) = n
entry_length (sample bs) = length bs

-- The header word that the kernel writes: the length, with a flag bit.
abbrev pub header : Entry → ℕ
header (reserved n) = 2 ^ 31 + n
header (discarded n) = 2 ^ 30 + n
header (sample bs) = length bs

-- Header and bytes, rounded up to a multiple of 8.
abbrev pub entry_size : Entry → ℕ
entry_size e = (entry_length e + 15) / 8 * 8

abbrev pub next_pos : ℕ → Entry → ℕ
next_pos pos e = u64 (pos + entry_size e)

abbrev pub HasBytes : (ℕ → ℕ) → ℕ → Entry → Type 0
HasBytes byte offset (reserved n) = Unit {0}
HasBytes byte offset (discarded n) = Unit {0}
HasBytes byte offset (sample bs) = bytes_at byte offset (length bs) ≡ bs

-- The ring, whose data area has `size` bytes, holds the log from a position up to the producer's.
pub data Holds (r : Ring) (size : ℕ) : ℕ → List Entry → Type 0 where
  caught_up : {pos : ℕ} → pos % 2 ^ 32 ≡ r.producer_pos → Holds r size pos []
  entry :
      {pos : ℕ} {e : Entry} {log : List Entry}
      → pos % 2 ^ 32 ≢ r.producer_pos
      → entry_length e < 2 ^ 30
      → le (bytes_at r.byte (pos % size) 4) ≡ header e
      → HasBytes r.byte (pos % size + header_size) e
      → Holds r size (next_pos pos e) log
      → Holds r size pos (e ∷ log)

-- What reading a log means: discarded entries are passed over, messages of the expected size are
-- handed on, a reserved entry ends the reading before it, and an entry of another size ends it
-- with an error after it.
unfoldable pub read_log : (value_size pos count : ℕ) → List (List ℕ) → List Entry → Consumed
read_log size pos count out [] = record {
  status = consumed count;
  delivered = out;
  consumer_pos = pos;
}
read_log size pos count out (reserved n ∷ log) = record {
  status = consumed count;
  delivered = out;
  consumer_pos = pos;
}
read_log size pos count out (discarded n ∷ log) =
    read_log size (next_pos pos (discarded n)) count out log
read_log size pos count out (sample bs ∷ log) =
    let rest = read_log size (next_pos pos (sample bs)) (count + 1) (out ++ (bs ∷ [])) log in
    if length bs == size then rest else record {
      status = wrong_size (length bs);
      delivered = out;
      consumer_pos = next_pos pos (sample bs);
    }
