-- ===== src/Bpf.antt =====
-- Bpf.cpp: attaching a program to a method, and reading a ring buffer. What the kernel answers is
-- given: file descriptors as integers, negative for a failure.
pub mod Laws
pub mod Perf
pub mod Life
pub mod Tests
use platform_packages_module.Prelude.{
  ℕ, ◌+◌, ◌-◌, ◌*◌, ◌/◌, ◌%◌, ◌^◌, List, [], ◌∷◌, Option, none, some, Bool, true, false, not, ◌==◌,
  leb, ltb, if◌then◌else◌, Text, ℤ, pos, negsuc, is_negative, map, to_int32, le,
}
use platform_packages_module.Ringbuf.{Ring, Consumed, is_empty, consume_all}

-- `struct perf_event_attr`, the fields that are set.
pub record PerfEventAttr : Type 0 where
  pub sample_period : ℕ
  pub wakeup_events : ℕ
  pub config1 : Text
  pub config2 : ℤ
  pub type : ℤ
  pub exclude_kernel : Bool

-- The kernel as `bpfPerfEventOpen` meets it, with `ioctl`'s two requests apart.
pub record PerfKernel : Type 0 where
  pub retrieve_program : Text → ℤ
  pub pmu_type_file : Option Text
  pub strtol : Text → ℤ
  pub perf_event_open : PerfEventAttr → ℤ → ℤ
  pub set_bpf : ℤ → ℤ → ℤ
  pub enable : ℤ → ℤ

-- What `bpfPerfEventOpen` returns, and the descriptors that the process has open then, the last
-- opened first.
pub record PerfOpened : Type 0 where
  pub ret : ℤ
  pub open_fds : List ℤ

abbrev pub same_fd : ℤ → ℤ → Bool
same_fd (pos a) (pos b) = a == b
same_fd (negsuc a) (negsuc b) = a == b
same_fd _ _ = false

-- `close`: the descriptor is not open any more.
unfoldable pub close_fd : ℤ → List ℤ → List ℤ
close_fd fd [] = []
close_fd fd (f ∷ fds) = let rest = close_fd fd fds in if same_fd fd f then fds else f ∷ rest

unfoldable pub attr_for : Text → ℤ → ℤ → PerfEventAttr
attr_for filename offset pmu_type = record {
  sample_period = 1;
  wakeup_events = 1;
  config1 = filename;
  config2 = offset;
  type = pmu_type;
  exclude_kernel = true;
}

module _ (k : PerfKernel) where
  -- The part from the system call on. A descriptor that is opened stands among the open ones.
  attach : (fds : List ℤ) (attr : PerfEventAttr) (pid program_fd : ℤ) → PerfOpened
  attach fds attr pid program_fd =
      let fd = k.perf_event_open attr pid in
      if is_negative fd
      then record { ret = negsuc 0; open_fds = fds }
      else if is_negative (k.set_bpf fd program_fd)
      then record { ret = negsuc 0; open_fds = fd ∷ fds }
      else if is_negative (k.enable fd)
      then record { ret = negsuc 0; open_fds = fd ∷ fds }
      else record { ret = pos 0; open_fds = fd ∷ fds }

  -- The part in which the program's descriptor is held.
  use_program : (fds : List ℤ) (filename : Text) (offset pid program_fd : ℤ) → PerfOpened
  unfolding attach attr_for
  use_program fds filename offset pid program_fd = elim k.pmu_type_file [
    | none ↦ record { ret = negsuc 0; open_fds = fds }
    | some type_str ↦ attach fds (attr_for filename offset (k.strtol type_str)) pid program_fd
  ]

  -- The destructor of `bpfProgramFd` closes the program's descriptor at each return.
  unfoldable pub bpf_perf_event_open :
      (fds : List ℤ) (filename : Text) (offset pid : ℤ) (bpf_program_path : Text) → PerfOpened
  unfolding use_program
  bpf_perf_event_open fds filename offset pid bpf_program_path =
      let program_fd = k.retrieve_program bpf_program_path in
      let out = use_program (program_fd ∷ fds) filename offset pid program_fd in
      if is_negative program_fd
      then record { ret = negsuc 0; open_fds = fds }
      else record out { open_fds = close_fd program_fd out.open_fds }

-- What `BpfRingbufBase::Init` asks the kernel for, in its order.
pub record MapInfo : Type 0 where
  pub retrieved : Bool
  pub map_type : ℤ
  pub max_entries : ℤ
  pub page_size : ℕ
  pub consumer_mapped : Bool
  pub producer_mapped : Bool

-- What `Init` sets up: the mask and the sizes of the two mappings.
pub record Mapping : Type 0 where
  pub pos_mask : ℕ
  pub consumer_size : ℕ
  pub producer_size : ℕ

-- The bytes of the producer's mapping: an `int` is computed, and taken as a 64 bit number.
unfoldable pub producer_bytes : (page_size entries : ℕ) → ℕ
producer_bytes page_size entries =
    let sum = (page_size + 2 * entries) % 2 ^ 32 in
    if ltb sum (2 ^ 31) then sum else 2 ^ 64 - 2 ^ 32 + sum

-- `BPF_MAP_TYPE_RINGBUF`
abbrev pub ringbuf_type : ℕ
ringbuf_type = 27

is_ringbuf : ℤ → Bool
is_ringbuf (pos n) = n == ringbuf_type
is_ringbuf (negsuc n) = false

-- The positive number of entries, if it is one.
entries_of : ℤ → Option ℕ
entries_of (pos n) = if n == 0 then none else some n
entries_of (negsuc n) = none

-- `BpfRingbufBase::Init`; `none` is an error result.
unfoldable pub init : MapInfo → Option Mapping
unfolding is_ringbuf entries_of
init m =
    if not m.retrieved
    then none
    else if not (is_ringbuf m.map_type)
    then none
    else elim (entries_of m.max_entries) [
      | none ↦ none
      | some n ↦
          if not m.consumer_mapped
          then none
          else if not m.producer_mapped
          then none
          else some (record {
            pos_mask = n - 1;
            consumer_size = m.page_size;
            producer_size = producer_bytes m.page_size n;
          })
    ]

-- The shared memory behind a mapping, at the two moments that `pollRingBuf` looks at it.
pub record Memory : Type 0 where
  pub byte : ℕ → ℕ
  pub producer_pos : ℕ
  pub consumer_pos : ℕ

abbrev pub ring_of : ℕ → Mapping → Memory → Ring
ring_of value_size m memory = record {
  value_size = value_size;
  pos_mask = m.pos_mask;
  byte = memory.byte;
  producer_pos = memory.producer_pos;
  consumer_pos = memory.consumer_pos;
}

-- What `pollRingBuf` does: it aborts on a ring buffer that cannot be set up, or it returns values,
-- and leaves the consumer's position.
pub data Polled : Type 0 where
  aborted : Polled
  values : List (List ℕ) → ℕ → Polled

-- `pollRingBuf`: `waited` is the memory when the poll ends, `read` the memory when it is read. The
-- error that `ConsumeAll` may return is not looked at.
unfoldable pub poll_ring_buf : (fuel value_size : ℕ) → MapInfo → (waited read : Memory) → Polled
poll_ring_buf fuel value_size info waited read = elim (init info) [
  | none ↦ aborted
  | some m ↦
      let out = consume_all (ring_of value_size m read) fuel in
      if not (not (is_empty (ring_of value_size m waited)))
      then values [] read.consumer_pos
      else values out.delivered out.consumer_pos
]

-- What `consumeRingBuf` returns, with the consumer's position, unless it aborts: the low 32 bits of
-- each 64-bit value.
unfoldable pub consume_ring_buf : (fuel : ℕ) → MapInfo → (read : Memory) → Option (List ℤ × ℕ)
consume_ring_buf fuel info read = elim (init info) [
  | none ↦ none
  | some m ↦
      let out = consume_all (ring_of 8 m read) fuel in
      some (map (λ bytes. to_int32 (le bytes)) out.delivered, out.consumer_pos)
]
