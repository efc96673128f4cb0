-- ===== src/Progs/MapTests.antt =====
-- The programs that use a map, on the small user memory.
use platform_packages_module.Prelude.{
  ℕ, zero, suc, ◌+◌, ◌≤◌, ◌≡◌, ◌≢◌, refl, List, [], ◌∷◌, Option, none, some, Bool, true, false,
  arith, u32, if◌then◌else◌, ◌||◌, ◌⊎◌, get_or,
}
use platform_packages_module.Progs.Kernel.{Submits}
use platform_packages_module.Progs.Structs.{PtRegs, reg, BitmapAllocation}
use platform_packages_module.Progs.Fns.{read_word}
use platform_packages_module.Progs.Binder.{
  exec_transact_internal, descriptor_key, report_transaction,
}
use platform_packages_module.Progs.Binder.Laws.{IsListed, exec_transact_internal_lem}
use platform_packages_module.Progs.Bitmap.{
  BitmapKey, same_key, ActiveBitmaps, bitmap_creation, bitmap_creation_for_snapshot,
  apply_free_function, freed_key, current_key,
}
use platform_packages_module.Progs.Bitmap.Trace.{
  Hit, at_snapshot, at_free, run, created_count, freed_count, step, dispatch, creates, frees,
}
use platform_packages_module.Progs.Bitmap.Laws.{active_count, freed-le-created}
use platform_packages_module.Progs.Sample.{helpers, ctx}

-- The code 7 of register 2 stands third; a zero ends the list.
abbrev listed_codes : List ℕ
listed_codes = 1 ∷ 2 ∷ 7 ∷ 0 ∷ 9 ∷ 0 ∷ 0 ∷ 0 ∷ 0 ∷ 0 ∷ []

abbrev other_codes : List ℕ
other_codes = 1 ∷ 2 ∷ 0 ∷ 7 ∷ 9 ∷ 0 ∷ 0 ∷ 0 ∷ 0 ∷ 0 ∷ []

abbrev interfaces : List ℕ → List ℕ → Option (List ℕ)
interfaces codes key = some codes

listed_no_zero : (j : ℕ) → 0 ≤ j → j ≤ 2 → (get_or listed_codes j 0 ≡ 0) → ⊥
listed_no_zero zero h p = omega arith
listed_no_zero (suc zero) h p = omega arith
listed_no_zero (suc (suc zero)) h p = omega arith
listed_no_zero (suc (suc (suc j))) h p = absurd (omega arith)

listed : IsListed 10 0 listed_codes (reg ctx 2)
listed = record {
  index = 2;
  from = omega arith;
  below = omega arith;
  found = refl;
  no_zero = listed_no_zero;
}

exec_transact_internal_lem_example :
    (IsListed 10 0 listed_codes (reg ctx 2)
      × (exec_transact_internal helpers (interfaces listed_codes) ctx none
          ≡ report_transaction helpers ctx (descriptor_key helpers ctx) none))
    ⊎ ((¬ IsListed 10 0 listed_codes (reg ctx 2))
        × (exec_transact_internal helpers (interfaces listed_codes) ctx none
            ≡ record { ret = 0; submitted = none }))
exec_transact_internal_lem_example =
    exec_transact_internal_lem helpers (interfaces listed_codes) ctx none refl

no_index :
    (i : ℕ)
    → get_or other_codes i 0 ≡ 7
    → ((j : ℕ) → 0 ≤ j → j ≤ i → get_or other_codes j 0 ≢ 0)
    → ⊥
no_index zero e h = omega arith
no_index (suc zero) e h = omega arith
no_index (suc (suc i)) e h = h 2 (omega arith) (omega arith) refl

not-IsListed : ¬ IsListed 10 0 other_codes (reg ctx 2)
not-IsListed l = no_index l.index l.found l.no_zero

-- A map without a bound, as a function.
abbrev insert_key : (BitmapKey → Bool) → BitmapKey → BitmapKey → Bool
insert_key m key j = same_key key j || m j

abbrev remove_key : (BitmapKey → Bool) → BitmapKey → BitmapKey → Bool
remove_key m key j = if same_key key j then false else m j

insert_adds :
    (m : BitmapKey → Bool) (key j : BitmapKey)
    → insert_key m key j ≡ true
    → (m j ≡ true) ⊎ (same_key key j ≡ true)
insert_adds m key j h = ground arith

abbrev unbounded : ActiveBitmaps
unbounded = record {
  Map = BitmapKey → Bool;
  has_elem = λ m key. m key;
  update_noexist = insert_key;
  delete_elem = remove_key;
  update_adds = insert_adds;
  delete_removes = λ m key j. refl;
}

abbrev empty : BitmapKey → Bool
empty key = false

abbrev bitmap_slot : BitmapAllocation
bitmap_slot = record {
  type = 9;
  width = 1;
  height = 1;
  pixel_storage_type = 1;
  bitmap_size = 1;
  native_ptr = 1;
  activity_name = [];
}

-- The pointer that `apply_free_function` reads, 8 bytes of ones, as register 3.
abbrev wrapper : ℕ
wrapper = 0x0101_0101_0101_0101

abbrev snapshot_ctx : PtRegs
snapshot_ctx = record { regs = 0 ∷ 1 ∷ 2 ∷ wrapper ∷ 4 ∷ 5 ∷ []; sp = 0 }

abbrev snapshot : Hit
snapshot = record {
  program = at_snapshot;
  helpers = helpers;
  ctx = snapshot_ctx;
  slot = some bitmap_slot;
}

abbrev release : Hit
release = record {
  program = at_free;
  helpers = helpers;
  ctx = snapshot_ctx;
  slot = some bitmap_slot;
}

abbrev bitmap_key : BitmapKey
bitmap_key = record { tgid = 5; native_ptr = wrapper }

abbrev hits : List Hit
hits = release ∷ snapshot ∷ release ∷ release ∷ []

-- Of three releases one is reported, that after the creation.
hits_counts :
    (freed_count unbounded bitmap_key empty hits ≡ 1) × (created_count bitmap_key hits ≡ 1)
unfolding freed_count created_count step dispatch creates frees apply_free_function freed_key
    current_key read_word bitmap_creation_for_snapshot
hits_counts = (refl, refl)

freed-le-created_example :
    freed_count unbounded bitmap_key empty hits
      + active_count unbounded (run unbounded empty hits) bitmap_key
    ≤ created_count bitmap_key hits + active_count unbounded empty bitmap_key
freed-le-created_example = freed-le-created unbounded bitmap_key empty hits

-- Four fields go out as they stood in the reserved slot.
bitmap_creation_runs : Submits (bitmap_creation helpers ctx (some bitmap_slot)) (λ o.
    (o.type ≡ 9)
    × (o.bitmap_size ≡ 1)
    × (o.native_ptr ≡ 1)
    × (o.activity_name ≡ [])
    × (o.width ≡ u32 4)
    × (o.height ≡ u32 5))
unfolding bitmap_creation
bitmap_creation_runs = (refl, (refl, refl, refl, refl, refl, refl))
