-- ===== src/Ringbuf/Tests.antt =====
-- A ring of 32 bytes with a message, a discarded entry that wraps round, and the theorems at it.
use platform_packages_module.Prelude.{
  ℕ, ◌+◌, ◌^◌, ◌≡◌, refl, List, [], ◌∷◌, ◌++◌, arith, replicate, get_or,
}
use platform_packages_module.Ringbuf.{
  Ring, consumed, wrong_size, consume_loop, consume_all, round_length, bytes_at, length_at,
  message_at, start_of,
}
use platform_packages_module.Ringbuf.Log.{
  Entry, sample, discarded, Holds, caught_up, entry, read_log,
}
use platform_packages_module.Ringbuf.Consume.{consume_all-read_log}

abbrev payload : List ℕ
payload = 1 ∷ 2 ∷ 3 ∷ 4 ∷ 5 ∷ 6 ∷ 7 ∷ 8 ∷ []

-- The discarded entry stands at offset 0, the message at offset 16.
abbrev area : List ℕ
area = (4 ∷ 0 ∷ 0 ∷ 64 ∷ replicate 12 0) ++ (8 ∷ 0 ∷ 0 ∷ 0 ∷ 0 ∷ 0 ∷ 0 ∷ 0 ∷ payload)

abbrev pub ring : Ring
ring = record {
  value_size = 8;
  pos_mask = 31;
  byte = λ i. get_or area i 0;
  producer_pos = 48;
  consumer_pos = 2 ^ 32 + 16;
}

abbrev log : List Entry
log = sample payload ∷ discarded 4 ∷ []

log-Holds : Holds ring 32 (2 ^ 32 + 16) log
unfolding bytes_at
log-Holds =
    entry (omega arith) (omega arith) refl refl
      (entry (omega arith) (omega arith) refl tt (caught_up refl))

consume_runs :
    consume_all ring 3
    ≡ record { status = consumed 1; delivered = payload ∷ []; consumer_pos = 2 ^ 32 + 48 }
unfolding consume_all consume_loop length_at message_at start_of round_length bytes_at
consume_runs = refl

-- A message of another size is an error, and is passed over.
wrong_size_runs :
    consume_all (record ring { value_size = 4 }) 3
    ≡ record { status = wrong_size 8; delivered = []; consumer_pos = 2 ^ 32 + 32 }
unfolding consume_all consume_loop length_at message_at start_of round_length bytes_at
wrong_size_runs = refl

consume_all-read_log_example : consume_all ring 3 ≡ read_log 8 (2 ^ 32 + 16) 0 [] log
consume_all-read_log_example = consume_all-read_log ring 5 refl 3 log-Holds (omega arith)
