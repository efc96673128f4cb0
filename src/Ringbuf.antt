-- ===== src/Ringbuf.antt =====
-- headers/include/bpf/BpfRingbuf.h: the user space reader of a ring buffer, `BpfRingbufBase`.
pub mod Log
pub mod Consume
mod Tests
use Prim.Native.Nat.{bit_and}
use platform_packages_module.Prelude.{
  ℕ, zero, suc, ◌+◌, ◌*◌, ◌/◌, ◌%◌, ◌^◌, List, [], ◌∷◌, ◌++◌, Bool, true, false, ◌==◌,
  if◌then◌else◌, u32, u64, le,
}

-- The mapped ring buffer at a moment: the bytes of the data area by offset, the producer's
-- position as its low 32 bits, and the consumer's position.
pub record Ring : Type 0 where
  pub value_size : ℕ
  pub pos_mask : ℕ
  pub byte : ℕ → ℕ
  pub producer_pos : ℕ
  pub consumer_pos : ℕ

-- The `n` bytes of the data area from an offset on.
unfoldable pub bytes_at : (ℕ → ℕ) → ℕ → ℕ → List ℕ
bytes_at byte offset zero = []
bytes_at byte offset (suc n) = byte offset ∷ bytes_at byte (offset + 1) n

-- `BPF_RINGBUF_HDR_SZ`
abbrev pub header_size : ℕ
header_size = 8

-- `length & BPF_RINGBUF_BUSY_BIT`, the top bit of a 32-bit word.
abbrev pub is_busy : ℕ → Bool
is_busy length = length / 2 ^ 31 % 2 == 1

-- `length & BPF_RINGBUF_DISCARD_BIT`, the bit below it.
abbrev pub is_discarded : ℕ → Bool
is_discarded length = length / 2 ^ 30 % 2 == 1

-- `roundLength`: the two flag bits are cleared, the header is added, and the sum is rounded up to
-- a multiple of 8, all in 32 bits.
unfoldable pub round_length : ℕ → ℕ
round_length len = u32 (u32 (len % 2 ^ 30 + header_size) + 7) / 8 * 8

-- How `ConsumeAll` ends: with the number of messages, or with EMSGSIZE and the length that it met.
pub data Status : Type 0 where
  consumed : ℕ → Status
  wrong_size : ℕ → Status
  out_of_fuel : Status

-- What `ConsumeAll` leaves: its status, the messages that it handed to the callback, in order, and
-- the consumer's position.
pub record Consumed : Type 0 where
  pub status : Status
  pub delivered : List (List ℕ)
  pub consumer_pos : ℕ

module _ (r : Ring) where
  -- `isEmpty`
  unfoldable pub is_empty : Bool
  is_empty = r.consumer_pos % 2 ^ 32 == r.producer_pos

  -- Where the entry at a position starts.
  unfoldable pub start_of : ℕ → ℕ
  start_of cons_pos = bit_and cons_pos r.pos_mask

  -- The header word of the entry at a position.
  unfoldable pub length_at : ℕ → ℕ
  unfolding bytes_at
  length_at cons_pos = le (bytes_at r.byte (start_of cons_pos) 4)

  -- The message of the entry at a position, as the callback reads it.
  unfoldable pub message_at : ℕ → List ℕ
  message_at cons_pos = bytes_at r.byte (start_of cons_pos + header_size) r.value_size

  -- The loop of `ConsumeAll`, on fuel; `delivered` is what the callback has had.
  unfoldable pub consume_loop : (fuel cons_pos count : ℕ) → List (List ℕ) → Consumed
  consume_loop zero cons_pos count delivered = record {
    status = out_of_fuel;
    delivered = delivered;
    consumer_pos = cons_pos;
  }
  consume_loop (suc fuel) cons_pos count delivered =
      let length = length_at cons_pos in
      let next = u64 (cons_pos + round_length length) in
      let skip = consume_loop fuel next count delivered in
      let deliver = consume_loop fuel next (count + 1) (delivered ++ (message_at cons_pos ∷ [])) in
      if cons_pos % 2 ^ 32 == r.producer_pos
      then record { status = consumed count; delivered = delivered; consumer_pos = cons_pos }
      else if is_busy length
      then record { status = consumed count; delivered = delivered; consumer_pos = cons_pos }
      else if is_discarded length
      then skip
      else if length == r.value_size
      then deliver
      else record { status = wrong_size length; delivered = delivered; consumer_pos = next }

  -- `ConsumeAll`
  unfoldable pub consume_all : ℕ → Consumed
  consume_all fuel = consume_loop fuel r.consumer_pos 0 []
