-- ===== src/Ffi/Tests.antt =====
-- The theorems on the functions for the Rust port at concrete inputs.
use platform_packages_module.Prelude.{
  ℕ, ◌+◌, ◌^◌, ◌≡◌, List, [], ◌∷◌, ◌++◌, none, some, true, false, refl, arith, get_or, pos,
}
use platform_packages_module.Ringbuf.{is_empty, bytes_at}
use platform_packages_module.Ringbuf.Log.{Entry, sample, Holds, caught_up, entry, read_log}
use platform_packages_module.Bpf.{MapInfo, Memory, ring_of}
use platform_packages_module.Bpf.Laws.{IsUsable, mapping_of}
use platform_packages_module.Ffi.Bpf.{poll_ring_buf_ffi, code_of}
use platform_packages_module.Ffi.Bpf.Laws.{Tells, poll_ring_buf_ffi-log}
use platform_packages_module.Ffi.ActivityManager.{
  Device, number, address, run, get_uid, list_get, check_api_availability,
}
use platform_packages_module.Ffi.ActivityManager.Laws.{run-fresh}

-- A device without the functions, which counts its calls of the dynamic linker.
abbrev device : Device
device = record {
  World = ℕ;
  dlopen = λ w. (w + 1, true);
  dlsym = λ w. false;
  dlclose = λ w. w;
  is_android_37 = true;
  call = λ w c. (w, number (pos 5));
}

check_fails : check_api_availability device 0 ≡ (1, false)
unfolding check_api_availability
check_fails = refl

run-fresh_example :
    run device (get_uid 4096 ∷ list_get 4096 0 ∷ []) (record { world = 0; checked = none })
    ≡ (record { world = 1; checked = some false }, number (pos 4294967295) ∷ address 0 ∷ [])
unfolding check_api_availability
run-fresh_example = run-fresh device (get_uid 4096) (list_get 4096 0 ∷ []) 0

abbrev info : MapInfo
info = record {
  retrieved = true;
  map_type = pos 27;
  max_entries = pos 4096;
  page_size = 4096;
  consumer_mapped = true;
  producer_mapped = true;
}

abbrev memory : Memory
memory = record {
  byte = λ i. get_or ((4 ∷ 0 ∷ 0 ∷ 0 ∷ 0 ∷ 0 ∷ 0 ∷ 0 ∷ []) ++ (1 ∷ 2 ∷ 3 ∷ 4 ∷ [])) i 0;
  producer_pos = 16;
  consumer_pos = 0;
}

abbrev log : List Entry
log = sample (1 ∷ 2 ∷ 3 ∷ 4 ∷ []) ∷ []

log-Holds : Holds (ring_of 4 (mapping_of info 12) memory) (2 ^ 12) 0 log
unfolding bytes_at
log-Holds = entry (omega arith) (omega arith) refl refl (caught_up refl)

info-IsUsable : IsUsable info 12
info-IsUsable = record {
  retrieved = refl;
  map_type = refl;
  max_entries = refl;
  consumer_mapped = refl;
  producer_mapped = refl;
}

poll_ring_buf_ffi-log_example :
    (poll_ring_buf_ffi 2 4 info memory memory ≡ record {
      ret = code_of (read_log 4 0 0 [] log).status;
      delivered = (read_log 4 0 0 [] log).delivered;
      consumer_pos = (read_log 4 0 0 [] log).consumer_pos;
    })
    × Tells (read_log 4 0 0 [] log)
unfolding is_empty
poll_ring_buf_ffi-log_example =
    poll_ring_buf_ffi-log info 12 2 4 memory memory info-IsUsable refl log-Holds (omega arith)
