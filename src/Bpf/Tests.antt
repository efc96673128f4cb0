-- ===== src/Bpf/Tests.antt =====
-- Attaching on a sample kernel, and polling a sample ring.
use platform_packages_module.Prelude.{
  ◌≡◌, ◌^◌, refl, List, [], ◌∷◌, some, true, arith, get_or, codes, pos, negsuc, ◌++◌,
}
use platform_packages_module.Ringbuf.{is_empty, bytes_at}
use platform_packages_module.Ringbuf.Log.{Entry, sample, Holds, caught_up, entry, read_log}
use platform_packages_module.Bpf.{
  PerfKernel, bpf_perf_event_open, close_fd, MapInfo, Memory, poll_ring_buf, values, ring_of,
}
use platform_packages_module.Bpf.Perf.{IsOutcome, bpf_perf_event_open-open_fds}
use platform_packages_module.Bpf.Laws.{IsUsable, mapping_of, poll_ring_buf-log}

abbrev pub kernel : PerfKernel
kernel = record {
  retrieve_program = λ path. pos 7;
  pmu_type_file = some (codes "6\n");
  strtol = λ s. pos 6;
  perf_event_open = λ attr pid. pos 8;
  set_bpf = λ fd program. pos 0;
  enable = λ fd. pos 0;
}

abbrev failing_kernel : PerfKernel
failing_kernel = record kernel { enable = λ fd. negsuc 0 }

-- Both descriptors of the call are numbers that a kernel may give; the second stays open.
failing_runs :
    bpf_perf_event_open failing_kernel (pos 3 ∷ []) (codes "/a") (pos 64) (pos 1) (codes "/p")
    ≡ record { ret = negsuc 0; open_fds = pos 8 ∷ pos 3 ∷ [] }
unfolding bpf_perf_event_open close_fd
failing_runs = refl

bpf_perf_event_open-open_fds_example :
    IsOutcome failing_kernel
      (pos 3 ∷ [])
      (codes "/a")
      (pos 64)
      (pos 1)
      (codes "/p")
      (bpf_perf_event_open failing_kernel (pos 3 ∷ []) (codes "/a") (pos 64) (pos 1) (codes "/p"))
bpf_perf_event_open-open_fds_example =
    bpf_perf_event_open-open_fds failing_kernel (pos 3 ∷ []) (codes "/a") (pos 64) (pos 1)
      (codes "/p")

abbrev info : MapInfo
info = record {
  retrieved = true;
  map_type = pos 27;
  max_entries = pos 4096;
  page_size = 4096;
  consumer_mapped = true;
  producer_mapped = true;
}

abbrev memory : Memory
memory = record {
  byte = λ i. get_or ((4 ∷ 0 ∷ 0 ∷ 0 ∷ 0 ∷ 0 ∷ 0 ∷ 0 ∷ []) ++ (1 ∷ 2 ∷ 3 ∷ 4 ∷ [])) i 0;
  producer_pos = 16;
  consumer_pos = 0;
}

abbrev log : List Entry
log = sample (1 ∷ 2 ∷ 3 ∷ 4 ∷ []) ∷ []

log-Holds : Holds (ring_of 4 (mapping_of info 12) memory) (2 ^ 12) 0 log
unfolding bytes_at
log-Holds = entry (omega arith) (omega arith) refl refl (caught_up refl)

info-IsUsable : IsUsable info 12
info-IsUsable = record {
  retrieved = refl;
  map_type = refl;
  max_entries = refl;
  consumer_mapped = refl;
  producer_mapped = refl;
}

poll_ring_buf-log_example :
    poll_ring_buf 2 4 info memory memory
    ≡ values (read_log 4 0 0 [] log).delivered (read_log 4 0 0 [] log).consumer_pos
unfolding is_empty
poll_ring_buf-log_example =
    poll_ring_buf-log info 12 2 4 memory memory info-IsUsable refl log-Holds (omega arith)
