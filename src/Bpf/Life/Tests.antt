-- ===== src/Bpf/Life/Tests.antt =====
-- A process that holds a list of resources, with a kernel in which each call can be made to fail.
use platform_packages_module.Prelude.{
  ℕ, ◌+◌, ◌-◌, ◌≡◌, ◌==◌, refl, none, some, Bool, true, false, if◌then◌else◌, pos,
}
use platform_packages_module.Bpf.Life.{Calls, map_pages, init_buffer, destroy, create, with_buffer}
use platform_packages_module.Bpf.Life.Laws.{
  Resource, descriptor, pages, one, mapped, IsCalls, with_buffer-holds,
}

-- The state is how often each resource is held. The second mapping fails if `full` is true.
abbrev calls : (full : Bool) → Calls
calls full = record {
  World = Resource → ℕ;
  map_retrieve_exclusive_rw = λ w. ((λ r. w r + one (descriptor 7) r), some 7);
  map_type = λ w fd. pos 27;
  max_entries = λ w fd. pos 4096;
  page_size = 4096;
  mmap = λ w length fd offset.
      let producer = if full then none else some 131072 in
      let address = if offset == 0 then some 65536 else producer in
      ((λ r. w r + mapped address length r), address);
  munmap = λ w address length r. w r - one (pages address length) r;
  close = λ w fd r. w r - one (descriptor fd) r;
}

abbrev calls-IsCalls : (full : Bool) → IsCalls (calls full)
calls-IsCalls full = record {
  holds = λ w r. w r;
  opens = λ w r. refl;
  maps = λ w length fd offset r. refl;
  unmaps = λ w address length r. refl;
  closes = λ w fd r. refl;
}

-- While it lives, the object holds the descriptor; afterwards it does not.
held_while_alive : (create (calls false) (λ r. 0)).0 (descriptor 7) ≡ 1
unfolding create init_buffer map_pages
held_while_alive = refl

given_back_on_failure : (create (calls true) (λ r. 0)).0 (pages 65536 4096) ≡ 0
unfolding create init_buffer map_pages destroy
given_back_on_failure = refl

with_buffer-holds_example : with_buffer (calls false) (λ w b. w) (λ r. 2) (descriptor 7) ≡ 2
with_buffer-holds_example =
    with_buffer-holds (calls false) (calls-IsCalls false) (λ w b. w) (λ w b r. refl) (λ r. 2)
      (descriptor 7)
