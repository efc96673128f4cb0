-- ===== src/Bpf/Life/Laws.antt =====
-- What a ring buffer object takes, it gives back.
use platform_packages_module.Prelude.{
  ℕ, ◌+◌, ◌-◌, ◌≡◌, ◌⊎◌, inl, inr, refl, ap, Option, none, some, ◌==◌, ◌&&◌, arith, if◌then◌else◌,
  Bool-cases,
}
use platform_packages_module.Bpf.Life.{
  Calls, Buffer, map_pages, init_buffer, unmap, close_fd, destroy, create, with_buffer,
}
use platform_packages_module.Bpf.{is_ringbuf, entries_of, producer_bytes}

-- What a process can hold.
pub data Resource : Type 0 where
  descriptor : ℕ → Resource
  pages : (address length : ℕ) → Resource

-- One for the same resource, and 0 for another.
abbrev pub one : (held asked : Resource) → ℕ
one (descriptor a) (descriptor b) = if a == b then 1 else 0
one (pages a m) (pages b n) = if (a == b) && (m == n) then 1 else 0
one (descriptor a) (pages b n) = 0
one (pages a m) (descriptor b) = 0

abbrev pub opened : Option ℕ → Resource → ℕ
opened none r = 0
opened (some fd) r = one (descriptor fd) r

abbrev pub mapped : (address : Option ℕ) (length : ℕ) → Resource → ℕ
mapped none length r = 0
mapped (some address) length r = one (pages address length) r

-- The calls as they are documented: how often each resource is held after a call.
pub record IsCalls (calls : Calls) : Type 0 where
  pub holds : calls.World → Resource → ℕ
  pub opens :
      (w : calls.World) (r : Resource)
      → holds (calls.map_retrieve_exclusive_rw w).0 r
        ≡ holds w r + opened (calls.map_retrieve_exclusive_rw w).1 r
  pub maps :
      (w : calls.World) (length fd offset : ℕ) (r : Resource)
      → holds (calls.mmap w length fd offset).0 r
        ≡ holds w r + mapped (calls.mmap w length fd offset).1 length r
  pub unmaps :
      (w : calls.World) (address length : ℕ) (r : Resource)
      → holds (calls.munmap w address length) r ≡ holds w r - one (pages address length) r
  pub closes :
      (w : calls.World) (fd : ℕ) (r : Resource)
      → holds (calls.close w fd) r ≡ holds w r - one (descriptor fd) r

module _ (calls : Calls) (d : IsCalls calls) where
  open calls use {World}
  open d use {holds}

  -- What an object owns of a resource.
  abbrev pub owned : Buffer → Resource → ℕ
  owned b r =
      opened b.ring_fd r
      + mapped b.consumer_pos b.consumer_size r
      + mapped b.producer_pos b.producer_size r

  unmap-holds :
      (w : World) (address : Option ℕ) (length : ℕ) (r : Resource)
      → holds (unmap calls w address length) r ≡ holds w r - mapped address length r
  unfolding unmap
  unmap-holds w none length r = omega arith
  unmap-holds w (some address) length r = d.unmaps w address length r

  close_fd-holds :
      (w : World) (fd : Option ℕ) (r : Resource)
      → holds (close_fd calls w fd) r ≡ holds w r - opened fd r
  unfolding close_fd
  close_fd-holds w none r = omega arith
  close_fd-holds w (some fd) r = d.closes w fd r

  destroy-owned :
      (w : World) (b : Buffer) (r : Resource) → holds (destroy calls w b) r ≡ holds w r - owned b r
  unfolding destroy
  destroy-owned w b r =
      let w1 = unmap calls w b.consumer_pos b.consumer_size in
      let w2 = unmap calls w1 b.producer_pos b.producer_size in
      omega (
        arith,
        close_fd-holds w2 b.ring_fd r,
        unmap-holds w1 b.producer_pos b.producer_size r,
        unmap-holds w b.consumer_pos b.consumer_size r,
      )

  Option-cases : (o : Option ℕ) → (o ≡ none) ⊎ ((n : ℕ) × (o ≡ some n))
  Option-cases none = inl refl
  Option-cases (some n) = inr (n, refl)

  map_pages-owned :
      (w : World) (fd n : ℕ) (r : Resource)
      → let made = map_pages calls w fd n in
        holds made.0 r + one (descriptor fd) r ≡ holds w r + owned made.1.1 r
  unfolding map_pages
  map_pages-owned w fd n r =
      let size = producer_bytes calls.page_size n in
      let m1 = d.maps w calls.page_size fd 0 r in
      let w1 = (calls.mmap w calls.page_size fd 0).0 in
      let m2 = d.maps w1 size fd calls.page_size r in
      elim (Option-cases (calls.mmap w calls.page_size fd 0).1) [
        | inl e ↦ rw (e, map_pages) (omega (arith, rw e at m1))
        | inr (c, e) ↦ elim (Option-cases (calls.mmap w1 size fd calls.page_size).1) [
          | inl f ↦ rw (e, f, map_pages) (omega (arith, rw e at m1, rw f at m2))
          | inr (p, f) ↦ rw (e, f, map_pages) (omega (arith, rw e at m1, rw f at m2))
        ]
      ]

  init_buffer-owned :
      (w : World) (r : Resource)
      → let made = init_buffer calls w in holds made.0 r ≡ holds w r + owned made.1.1 r
  unfolding init_buffer
  init_buffer-owned w r =
      let o = d.opens w r in
      let w1 = (calls.map_retrieve_exclusive_rw w).0 in
      elim (Option-cases (calls.map_retrieve_exclusive_rw w).1) [
        | inl e ↦ rw (e, init_buffer) (omega (arith, rw e at o))
        | inr (fd, e) ↦ elim (Bool-cases (is_ringbuf (calls.map_type w1 fd))) [
          | inr other ↦ rw (e, other, init_buffer) (omega (arith, rw e at o))
          | inl ring ↦ elim (Option-cases (entries_of (calls.max_entries w1 fd))) [
            | inl f ↦ rw (e, ring, f, init_buffer) (omega (arith, rw e at o))
            | inr (n, f) ↦
                rw (e, ring, f, init_buffer) (omega (arith, rw e at o, map_pages-owned w1 fd n r))
          ]
        ]
      ]

  -- Whatever fails or succeeds, after the object has lived each descriptor is open and each memory
  -- mapped as often as before, if what is done with the object keeps this.
  pub with_buffer-holds :
      (consume : World → Buffer → World)
      → ((w : World) (b : Buffer) (r : Resource) → holds (consume w b) r ≡ holds w r)
      → (w : World) (r : Resource) → holds (with_buffer calls consume w) r ≡ holds w r
  unfolding with_buffer create
  with_buffer-holds consume keeps w r =
      let made = init_buffer calls w in
      elim (Bool-cases made.1.0) [
        | inl e ↦
            let c : create calls w ≡ (made.0, some made.1.1) = rw (e, create) refl in
            rw (c, with_buffer)
              (omega (
                arith,
                init_buffer-owned w r,
                ap (λ x. holds x.0 r) c,
                keeps (create calls w).0 made.1.1 r,
                destroy-owned (consume (create calls w).0 made.1.1) made.1.1 r,
              ))
        | inr e ↦
            let c : create calls w ≡ (destroy calls made.0 made.1.1, none) = rw (e, create) refl in
            rw (c, with_buffer)
              (omega (
                arith,
                init_buffer-owned w r,
                destroy-owned made.0 made.1.1 r,
                ap (λ x. holds x.0 r) c,
              ))
      ]
