-- ===== src/Ffi/Bpf/Laws.antt =====
-- `pollRingBuf` for the Rust port: what its result tells of the values that were delivered.
use platform_packages_module.Prelude.{
  ℕ, ◌+◌, ◌^◌, ◌<◌, ◌≡◌, ◌⊎◌, inl, refl, List, [], ◌∷◌, ◌++◌, some, false, arith, length,
  length-append, pos, negsuc,
}
use platform_packages_module.Ringbuf.{Consumed, wrong_size, is_empty}
use platform_packages_module.Ringbuf.Log.{
  Entry, Holds, read_log, reserved, discarded, sample, next_pos,
}
use platform_packages_module.Ringbuf.Consume.{consume_all-read_log}
use platform_packages_module.Bpf.{MapInfo, Memory, ring_of}
use platform_packages_module.Bpf.Laws.{IsUsable, mapping_of, init-mask}
use platform_packages_module.Ffi.Bpf.{code_of, poll_ring_buf_ffi}

-- The code of an ending tells the number of values, or that an entry had another size.
abbrev pub Tells : Consumed → Type 0
Tells out =
    (code_of out.status ≡ some (pos (length out.delivered)))
    ⊎ ((code_of out.status ≡ some (negsuc 1)) × (n : ℕ) × (out.status ≡ wrong_size n))

read_log-Tells :
    (size at count : ℕ) (out : List (List ℕ)) (log : List Entry)
    → length out ≡ count
    → Tells (read_log size at count out log)
unfolding read_log
read_log-Tells size at count out [] e = inl (ground (arith, e))
read_log-Tells size at count out (reserved n ∷ log) e = inl (ground (arith, e))
read_log-Tells size at count out (discarded n ∷ log) e =
    read_log-Tells size (next_pos at (discarded n)) count out log e
read_log-Tells size at count out (sample bs ∷ log) e = ground (
  arith,
  read_log-Tells size (next_pos at (sample bs)) (count + 1) (out ++ (bs ∷ [])) log
      (omega (arith, e, length-append out (bs ∷ []))),
)

-- `pollRingBuf` of the Rust port, on a usable map that is not empty when the poll ends, hands the
-- messages of the log to the callback, up to a reserved entry or one of another size, and leaves the
-- position after them; it returns their number, or -2 if it met an entry of another size. This is
-- if the loop has a round for each entry and one more.
pub poll_ring_buf_ffi-log :
    (m : MapInfo) (p fuel value_size : ℕ) (waited read : Memory) {log : List Entry}
    → IsUsable m p
    → is_empty (ring_of value_size (mapping_of m p) waited) ≡ false
    → Holds (ring_of value_size (mapping_of m p) read) (2 ^ p) read.consumer_pos log
    → length log < fuel
    → let out = read_log value_size read.consumer_pos 0 [] log in
      (poll_ring_buf_ffi fuel value_size m waited read ≡ record {
        ret = code_of out.status;
        delivered = out.delivered;
        consumer_pos = out.consumer_pos;
      })
      × Tells out
unfolding poll_ring_buf_ffi
poll_ring_buf_ffi-log m p fuel value_size waited read {log} u w h f = (
  rw
      (
        init-mask m p u,
        poll_ring_buf_ffi,
        w,
        consume_all-read_log (ring_of value_size (mapping_of m p) read) p refl fuel h f,
      )
      refl,
  read_log-Tells value_size read.consumer_pos 0 [] log refl,
)
