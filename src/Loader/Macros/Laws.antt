-- ===== src/Loader/Macros/Laws.antt =====
-- A ring buffer from its definition to the reader.
use Prim.Native.Nat.{bit_and}
use platform_packages_module.Prelude.{
  ℕ, ◌-◌, ◌^◌, ◌%◌, ◌≤◌, ◌<◌, ◌≡◌, ◌⊎◌, inl, inr, true, some, refl, arith, ◌∙◌, bit_and_mask, pos,
  ap, Bool-cases, ltb,
}
use platform_packages_module.Loader.Bpffs.{MapShape}
use platform_packages_module.Loader.Maps.{
  map_type_ringbuf, map_matches_expectations, effective_type, effective_entries,
}
use platform_packages_module.Loader.Macros.{
  MapOptions, define_bpf_map_base, define_bpf_ringbuf_ext, ringbuf_asserts,
}
use platform_packages_module.Loader.Macros.Structs.{map_view}
use platform_packages_module.Bpf.{MapInfo, init}
use platform_packages_module.Bpf.Laws.{IsUsable, mapping_of, init-mask}

-- What the daemon meets of a map with a shape, if it is retrieved and mapped.
abbrev pub info_of : (page_size : ℕ) → MapShape → MapInfo
info_of page_size shape = record {
  retrieved = true;
  map_type = pos shape.type;
  max_entries = pos shape.max_entries;
  page_size = page_size;
  consumer_mapped = true;
  producer_mapped = true;
}

usable :
    (page_size n : ℕ) (shape : MapShape)
    → shape.type ≡ map_type_ringbuf
    → shape.max_entries ≡ 2 ^ n
    → IsUsable (info_of page_size shape) n
usable page_size n shape t e = record {
  retrieved = refl;
  map_type = ap pos t;
  max_entries = ap pos e;
  consumer_mapped = refl;
  producer_mapped = refl;
}

-- A ring buffer of 2 ^ k bytes as a program defines it, on a machine whose pages have 2 ^ p bytes:
-- any map that the loader accepts for the definition can be set up by the daemon, with the mask of
-- a data area that is the larger of the two sizes, if the daemon can retrieve and map it.
pub ringbuf-init :
    (p k kvers : ℕ) (o : MapOptions) (shape : MapShape)
    → let def = map_view (define_bpf_ringbuf_ext (2 ^ k) o) in
      map_matches_expectations (2 ^ p) shape def (effective_type kvers def.type) ≡ true
      → (n : ℕ) × ((n ≡ p) ⊎ (n ≡ k))
        × (2 ^ p ≤ 2 ^ n)
        × (2 ^ k ≤ 2 ^ n)
        × (init (info_of (2 ^ p) shape) ≡ some (mapping_of (info_of (2 ^ p) shape) n))
unfolding define_bpf_ringbuf_ext define_bpf_map_base effective_type map_matches_expectations
    effective_entries
ringbuf-init p k kvers o shape h =
    let same : shape.type ≡ map_type_ringbuf = ground (arith, h) in
    elim (Bool-cases (ltb (2 ^ k) (2 ^ p))) [
      | inl e ↦ (
        p,
        inl refl,
        omega arith,
        ground (arith, e),
        init-mask (info_of (2 ^ p) shape) p (usable (2 ^ p) p shape same (ground (arith, h, e))),
      )
      | inr e ↦ (
        k,
        inr refl,
        ground (arith, e),
        omega arith,
        init-mask (info_of (2 ^ p) shape) k (usable (2 ^ p) k shape same (ground (arith, h, e))),
      )
    ]

mod_self : (n : ℕ) → 0 < n → n % n ≡ 0
mod_self n h = grind (arith, h)

-- A power of two from 4 KiB to 256 MiB passes the assertions on the size of a ring buffer.
ringbuf_asserts-power : (k : ℕ) → 4096 ≤ 2 ^ k → 2 ^ k ≤ 2 ^ 28 → ringbuf_asserts (2 ^ k) ≡ true
unfolding ringbuf_asserts
ringbuf_asserts-power k small large =
    let rest : bit_and (2 ^ k) (2 ^ k - 1) ≡ 0 =
      bit_and_mask k (2 ^ k) ∙ mod_self (2 ^ k) (omega (arith, small)) in
    ground (arith, small, large, rest)
