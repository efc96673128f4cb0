-- ===== src/Ffi/Bpf.antt =====
-- rust/ffi/bpf.cpp: ring buffers, probes and maps for the Rust port.
pub mod Laws
use platform_packages_module.Prelude.{
  ℕ, zero, suc, List, [], Option, none, some, if◌then◌else◌, Text, ℤ, pos, negsuc, is_negative,
  minus_errno,
}
use platform_packages_module.Ringbuf.{
  Consumed, Status, consumed, wrong_size, out_of_fuel, is_empty, consume_all,
}
use platform_packages_module.Bpf.{
  MapInfo, Mapping, Memory, init, ring_of, PerfKernel, bpf_perf_event_open, PerfOpened,
}
use platform_packages_module.Kernel.Calls.{
  Command, Result, write_to_map_entry, find_map_entry, delete_map_entry, get_first_map_key,
}

-- What `pollRingBuf` returns, the values that the callback had, and the consumer's position, if
-- there is a ring buffer. (Without a result the fuel was used up.)
pub record Polled : Type 0 where
  pub ret : Option ℤ
  pub delivered : List (List ℕ)
  pub consumer_pos : ℕ

-- The code for how `ConsumeAll` ends.
abbrev pub code_of : Status → Option ℤ
code_of (consumed n) = some (pos n)
code_of (wrong_size n) = some (negsuc 1)
code_of out_of_fuel = none

-- `pollRingBuf`: `waited` is the memory when the poll ends, `read` the memory when it is read.
unfoldable pub poll_ring_buf_ffi : (fuel value_size : ℕ) → MapInfo → (waited read : Memory) → Polled
poll_ring_buf_ffi fuel value_size info waited read = elim (init info) [
  | none ↦ record { ret = some (negsuc 0); delivered = []; consumer_pos = read.consumer_pos }
  | some m ↦
      let out = consume_all (ring_of value_size m read) fuel in
      if is_empty (ring_of value_size m waited)
      then record { ret = some (pos 0); delivered = []; consumer_pos = read.consumer_pos }
      else record {
        ret = code_of out.status;
        delivered = out.delivered;
        consumer_pos = out.consumer_pos;
      }
]

-- `bpfPerfEventOpen`, whose body is that of the function in src/Bpf.cpp.
abbrev pub bpf_perf_event_open_ffi :
    PerfKernel
    → (fds : List ℤ) (filename : Text) (offset pid : ℤ) (bpf_program_path : Text) → PerfOpened
bpf_perf_event_open_ffi k fds filename offset pid path =
    bpf_perf_event_open k fds filename offset pid path

-- The kernel's maps: opening with an exclusive lock, the calls on a descriptor, and `close`.
pub record MapCalls : Type 1 where
  pub World : Type 0
  pub retrieve_exclusive : World → Text → World × Result
  pub bpf : World → Command → World × Result
  pub close : World → ℕ → World

-- `-EINVAL`
abbrev pub minus_einval : ℤ
minus_einval = negsuc 21

module _ (calls : MapCalls) where
  -- `bpfMapOpenExclusiveRW`: the result, and the descriptor of the handle that is stored.
  unfoldable pub bpf_map_open_exclusive_rw : calls.World → Text → calls.World × (ℤ × Option ℕ)
  bpf_map_open_exclusive_rw w path =
      let (w1, opened) = calls.retrieve_exclusive w path in
      elim opened.ret [
        | negsuc n ↦ (w1, (minus_errno opened.errno, none))
        | pos fd ↦ (w1, (pos 0, some fd))
      ]

  -- `bpfMapClose`, which a null pointer may be given to.
  unfoldable pub bpf_map_close : calls.World → Option ℕ → calls.World
  bpf_map_close w none = w
  bpf_map_close w (some fd) = calls.close w fd

  -- The part that the calls on a handle share.
  unfoldable pub on_handle : calls.World → Option ℕ → (ℕ → Command) → calls.World × ℤ
  on_handle w none command = (w, minus_einval)
  on_handle w (some fd) command =
      let (w1, res) = calls.bpf w (command fd) in
      (w1, if is_negative res.ret then minus_errno res.errno else res.ret)

  -- `bpfMapUpdateElem`
  unfoldable pub bpf_map_update_elem :
      calls.World → Option ℕ → (key value flags : ℕ) → calls.World × ℤ
  bpf_map_update_elem w handle key value flags =
      on_handle w handle (λ fd. write_to_map_entry fd key value flags)

  -- `bpfMapLookupElem`
  unfoldable pub bpf_map_lookup_elem : calls.World → Option ℕ → (key value : ℕ) → calls.World × ℤ
  bpf_map_lookup_elem w handle key value = on_handle w handle (λ fd. find_map_entry fd key value)

  -- `bpfMapDeleteElem`
  unfoldable pub bpf_map_delete_elem : calls.World → Option ℕ → (key : ℕ) → calls.World × ℤ
  bpf_map_delete_elem w handle key = on_handle w handle (λ fd. delete_map_entry fd key)

  -- `bpfMapGetFirstKey`
  unfoldable pub bpf_map_get_first_key : calls.World → Option ℕ → (first_key : ℕ) → calls.World × ℤ
  bpf_map_get_first_key w handle first_key =
      on_handle w handle (λ fd. get_first_map_key fd first_key)
