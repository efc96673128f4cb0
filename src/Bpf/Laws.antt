-- ===== src/Bpf/Laws.antt =====
-- Polling reads the whole log.
use platform_packages_module.Prelude.{
  ℕ, zero, suc, ◌-◌, ◌^◌, ◌<◌, ◌≡◌, refl, List, [], some, true, false, arith, length, pos,
}
use native.Mathlib.Nat.{two-pow-succ}
use platform_packages_module.Ringbuf.{is_empty}
use platform_packages_module.Ringbuf.Log.{Entry, Holds, read_log}
use platform_packages_module.Ringbuf.Consume.{consume_all-read_log}
use platform_packages_module.Bpf.{
  MapInfo, Mapping, Memory, producer_bytes, ringbuf_type, is_ringbuf, entries_of, init, ring_of,
  values, poll_ring_buf,
}

-- A ring buffer map that the kernel hands over whole: 2 ^ p bytes of data, mapped.
pub record IsUsable (m : MapInfo) (p : ℕ) : Type 0 where
  pub retrieved : m.retrieved ≡ true
  pub map_type : m.map_type ≡ pos ringbuf_type
  pub max_entries : m.max_entries ≡ pos (2 ^ p)
  pub consumer_mapped : m.consumer_mapped ≡ true
  pub producer_mapped : m.producer_mapped ≡ true

-- The mapping of a data area of 2 ^ p bytes.
abbrev pub mapping_of : MapInfo → ℕ → Mapping
mapping_of m p = record {
  pos_mask = 2 ^ p - 1;
  consumer_size = m.page_size;
  producer_size = producer_bytes m.page_size (2 ^ p);
}

pow_pos : (p : ℕ) → 0 < 2 ^ p
pow_pos zero = omega arith
pow_pos (suc p) = omega (arith, pow_pos p, two-pow-succ p)

entries_of-pos : (n : ℕ) → 0 < n → entries_of (pos n) ≡ some n
unfolding entries_of
entries_of-pos n h = ground arith

-- Setting up such a map gives the mask of its data area.
pub init-mask : (m : MapInfo) (p : ℕ) → IsUsable m p → init m ≡ some (mapping_of m p)
unfolding init is_ringbuf
init-mask m p u = rw (
  u.retrieved,
  u.map_type,
  u.max_entries,
  init,
  entries_of-pos (2 ^ p) (pow_pos p),
  u.consumer_mapped,
  u.producer_mapped,
)

-- `pollRingBuf` on a usable map that is not empty when the poll ends returns the messages of the
-- log, up to a reserved entry or one of another size, and leaves the position after them, if the
-- loop has a round for each entry and one more.
pub poll_ring_buf-log :
    (m : MapInfo) (p fuel value_size : ℕ) (waited read : Memory) {log : List Entry}
    → IsUsable m p
    → is_empty (ring_of value_size (mapping_of m p) waited) ≡ false
    → Holds (ring_of value_size (mapping_of m p) read) (2 ^ p) read.consumer_pos log
    → length log < fuel
    → let out = read_log value_size read.consumer_pos 0 [] log in
      poll_ring_buf fuel value_size m waited read ≡ values out.delivered out.consumer_pos
unfolding poll_ring_buf
poll_ring_buf-log m p fuel value_size waited read u w h f = rw (
  init-mask m p u,
  poll_ring_buf,
  w,
  consume_all-read_log (ring_of value_size (mapping_of m p) read) p refl fuel h f,
)
