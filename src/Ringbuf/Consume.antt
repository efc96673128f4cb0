-- ===== src/Ringbuf/Consume.antt =====
-- `ConsumeAll` reads the log that the ring buffer holds.
use platform_packages_module.Prelude.{
  ℕ, zero, suc, ◌+◌, ◌-◌, ◌%◌, ◌^◌, ◌<◌, ◌≡◌, List, [], ◌∷◌, ◌++◌, arith, le, length, bit_and_mask,
}
use platform_packages_module.Ringbuf.{
  Ring, bytes_at, header_size, round_length, start_of, length_at, message_at, consume_loop,
  consume_all,
}
use platform_packages_module.Ringbuf.Log.{
  Entry, reserved, discarded, sample, entry_length, header, entry_size, next_pos, HasBytes, Holds,
  caught_up, entry, read_log,
}

-- For the header word of an entry with fewer than 2 ^ 30 bytes, be it reserved, discarded or a
-- message, the rounded length is the size of the entry.
pub round_length-header :
    (e : Entry) → entry_length e < 2 ^ 30 → round_length (header e) ≡ entry_size e
unfolding round_length
round_length-header (reserved n) h = omega arith
round_length-header (discarded n) h = omega arith
round_length-header (sample bs) h = omega arith

module _ (r : Ring) (k : ℕ) (mask : r.pos_mask ≡ 2 ^ k - 1) where
  start_of-mod : (pos : ℕ) → start_of r pos ≡ pos % 2 ^ k
  unfolding start_of
  start_of-mod pos = rw mask (bit_and_mask k pos)

  length_at-header :
      (pos : ℕ) (e : Entry)
      → le (bytes_at r.byte (pos % 2 ^ k) 4) ≡ header e
      → length_at r pos ≡ header e
  unfolding length_at
  length_at-header pos e h = rw (start_of-mod pos) h

  message_at-sample :
      (pos : ℕ) (bs : List ℕ)
      → HasBytes r.byte (pos % 2 ^ k + header_size) (sample bs)
      → length bs ≡ r.value_size
      → message_at r pos ≡ bs
  unfolding message_at
  message_at-sample pos bs h e = rw (start_of-mod pos, ← e) h

  -- The loop, from any position, on a log that is there.
  consume_loop-read_log :
      (fuel pos count : ℕ) (out : List (List ℕ)) {log : List Entry}
      → Holds r (2 ^ k) pos log
      → length log < fuel
      → consume_loop r fuel pos count out ≡ read_log r.value_size pos count out log
  unfolding consume_loop read_log
  consume_loop-read_log zero pos count out h f = absurd (omega arith)
  consume_loop-read_log (suc fuel) pos count out (caught_up e) f = ground arith
  consume_loop-read_log (suc fuel) pos count out (entry {e = reserved n} ne fits head bytes rest)
        f =
      ground (arith, length_at-header pos (reserved n) head)
  consume_loop-read_log (suc fuel) pos count out (entry {e = discarded n} ne fits head bytes rest)
        f =
      ground (
        arith,
        length_at-header pos (discarded n) head,
        round_length-header (discarded n) fits,
        consume_loop-read_log fuel (next_pos pos (discarded n)) count out rest (omega arith),
      )
  consume_loop-read_log (suc fuel) pos count out (entry {e = sample bs} ne fits head bytes rest) f =
      ground (
        arith,
        length_at-header pos (sample bs) head,
        round_length-header (sample bs) fits,
        message_at-sample pos bs bytes,
        consume_loop-read_log fuel (next_pos pos (sample bs)) (count + 1) (out ++ (bs ∷ [])) rest
            (omega arith),
      )

  -- `ConsumeAll` reads the log that lies between the consumer's and the producer's position: with
  -- one round of the loop for each entry and one more, it ends, with the status, the messages and
  -- the position that reading the log means. The mask is that of a data area of 2 ^ k bytes.
  pub consume_all-read_log :
      (fuel : ℕ) {log : List Entry}
      → Holds r (2 ^ k) r.consumer_pos log
      → length log < fuel
      → consume_all r fuel ≡ read_log r.value_size r.consumer_pos 0 [] log
  unfolding consume_all
  consume_all-read_log fuel h f = consume_loop-read_log fuel r.consumer_pos 0 [] h f
