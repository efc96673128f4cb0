-- ===== src/Bpf/Life.antt =====
-- The life of a ring buffer object of BpfRingbuf.h: Create, Init with the calls that it makes, and
-- the destructor. `Bpf.init` is the same Init, as far as its result is concerned.
mod Laws
mod Tests
use platform_packages_module.Prelude.{
  ℕ, ◌+◌, ◌*◌, Option, none, some, Bool, true, false, not, ◌==◌, ◌&&◌, if◌then◌else◌, ℤ,
}
use platform_packages_module.Bpf.{is_ringbuf, entries_of, producer_bytes}

-- The calls that a ring buffer makes: a file is open by its descriptor, and memory is mapped at an
-- address, with its size.
pub record Calls : Type 1 where
  pub World : Type 0
  pub map_retrieve_exclusive_rw : World → World × Option ℕ
  pub map_type : World → (fd : ℕ) → ℤ
  pub max_entries : World → (fd : ℕ) → ℤ
  pub page_size : ℕ
  pub mmap : World → (length fd offset : ℕ) → World × Option ℕ
  pub munmap : World → (address length : ℕ) → World
  pub close : World → (fd : ℕ) → World

-- The members that own something: mRingFd, mConsumerPos and mProducerPos with the sizes.
pub record Buffer : Type 0 where
  pub ring_fd : Option ℕ
  pub consumer_pos : Option ℕ
  pub consumer_size : ℕ
  pub producer_pos : Option ℕ
  pub producer_size : ℕ

-- The constructor without initialization. The sizes are not set yet.
abbrev pub fresh : Buffer
fresh = record {
  ring_fd = none;
  consumer_pos = none;
  consumer_size = 0;
  producer_pos = none;
  producer_size = 0;
}

module _ (calls : Calls) where
  open calls use {
    World, map_retrieve_exclusive_rw, map_type, max_entries, page_size, mmap, munmap, close,
  }

  abbrev pub Ended : Type 0
  Ended = World × (Bool × Buffer)

  -- The part of `Init` that maps the memory, for a descriptor and its number of entries.
  unfoldable pub map_pages : World → (fd entries : ℕ) → Ended
  map_pages w fd entries =
      let sized = record fresh {
        ring_fd = some fd;
        consumer_size = page_size;
        producer_size = producer_bytes page_size entries;
      } in
      let consumer = mmap w page_size fd 0 in
      elim consumer.1 [
        | none ↦ (consumer.0, (false, sized))
        | some c ↦
            let producer = mmap consumer.0 (producer_bytes page_size entries) fd page_size in
            elim producer.1 [
              | none ↦ (producer.0, (false, record sized { consumer_pos = some c }))
              | some p ↦ (
                producer.0,
                (true, record sized { consumer_pos = some c; producer_pos = some p }),
              )
            ]
      ]

  -- `Init` of a fresh object: whether it succeeds, and what it leaves.
  unfoldable pub init_buffer : World → Ended
  unfolding is_ringbuf entries_of
  init_buffer w =
      let opened = map_retrieve_exclusive_rw w in
      elim opened.1 [
        | none ↦ (opened.0, (false, fresh))
        | some fd ↦
            let held = record fresh { ring_fd = some fd } in
            if not (is_ringbuf (map_type opened.0 fd))
            then (opened.0, (false, held))
            else elim (entries_of (max_entries opened.0 fd)) [
              | none ↦ (opened.0, (false, held))
              | some n ↦ map_pages opened.0 fd n
            ]
      ]

  -- One `munmap` of the destructor.
  unfoldable unmap : World → Option ℕ → ℕ → World
  unmap w none size = w
  unmap w (some address) size = munmap w address size

  -- `~unique_fd`
  unfoldable close_fd : World → Option ℕ → World
  close_fd w none = w
  close_fd w (some fd) = close w fd

  -- The destructor, and then that of the member that owns the descriptor.
  unfoldable pub destroy : World → Buffer → World
  unfolding unmap close_fd
  destroy w b =
      let w1 = unmap w b.consumer_pos b.consumer_size in
      let w2 = unmap w1 b.producer_pos b.producer_size in close_fd w2 b.ring_fd

  -- `Create`: after an error the object is destroyed.
  unfoldable pub create : World → World × Option Buffer
  create w =
      let made = init_buffer w in
      if not made.1.0 then (destroy made.0 made.1.1, none) else (made.0, some made.1.1)

  -- `pollRingBuf` of rust/ffi/bpf.cpp as far as the object is concerned, which lives until it
  -- returns: `consume` is what is done with it.
  unfoldable pub with_buffer : (consume : World → Buffer → World) → World → World
  with_buffer consume w =
      let made = create w in elim made.1 [ none ↦ made.0 | some b ↦ destroy (consume made.0 b) b ]
