-- ===== src/Progs/Bitmap/Laws.antt =====
-- Creation and release of bitmaps, as the programs report them.
use platform_packages_module.Prelude.{
  ℕ, ◌+◌, ◌≤◌, ◌≡◌, refl, inl, inr, List, [], ◌∷◌, Option, none, some, true, arith, ◌&&◌,
  if◌then◌else◌, is_some, Bool-cases,
}
use platform_packages_module.Progs.Kernel.{Helpers}
use platform_packages_module.Progs.Structs.{PtRegs, reg, BitmapAllocation}
use platform_packages_module.Progs.Bitmap.{
  BitmapKey, same_key, ActiveBitmaps, current_key, freed_key, bitmap_creation_for_snapshot,
  apply_free_function,
}
use platform_packages_module.Progs.Bitmap.Trace.{
  BitmapProgram, at_creation, at_snapshot, at_free, at_start, Hit, dispatch, step, run, creates,
  frees, created_count, freed_count,
}

-- 1 for a bitmap that is active, and 0 for one that is not.
abbrev pub active_count : (active : ActiveBitmaps) → active.Map → BitmapKey → ℕ
active_count active m key = if active.has_elem m key then 1 else 0

same_key→eq : (a b : BitmapKey) → same_key a b ≡ true → a ≡ b
same_key→eq a b h = ground arith

same_key_refl : (a : BitmapKey) → same_key a a ≡ true
same_key_refl a = ground arith

module _ (active : ActiveBitmaps) (key : BitmapKey) (k : Helpers) (m : active.Map)
    (ctx : PtRegs) where
  snapshot_balance :
      (slot : Option BitmapAllocation)
      → active_count active (bitmap_creation_for_snapshot active k m ctx slot).0 key
        ≤ (if same_key (current_key k (reg ctx 3)) key then 1 else 0) + active_count active m key
  unfolding bitmap_creation_for_snapshot
  snapshot_balance none = ground arith
  snapshot_balance (some o) = ground (arith, active.update_adds m (current_key k (reg ctx 3)) key)

  free_balance :
      (slot : Option BitmapAllocation)
      → (if same_key (freed_key k ctx) key
              && is_some (apply_free_function active k m ctx slot).1.submitted
            then 1
            else 0)
          + active_count active (apply_free_function active k m ctx slot).0 key
        ≤ active_count active m key
  unfolding apply_free_function
  free_balance slot = elim (Bool-cases (same_key (freed_key k ctx) key)) [
    | inl same ↦
        let e = same_key→eq (freed_key k ctx) key same in
        ground (arith, e, active.delete_removes m (freed_key k ctx) key)
    | inr other ↦ ground (arith, active.delete_removes m (freed_key k ctx) key)
  ]

module _ (active : ActiveBitmaps) (key : BitmapKey) where
  -- One hit: a report of the release uses up the activity or a creation.
  step_balance :
      (m : active.Map) (p : BitmapProgram) (h : Hit)
      → h.program ≡ p
      → (if frees key h && is_some (step active m h).1.submitted then 1 else 0)
          + active_count active (step active m h).0 key
        ≤ (if creates key h then 1 else 0) + active_count active m key
  unfolding step dispatch creates frees
  step_balance m at_creation h e = rw e (omega arith)
  step_balance m at_snapshot h e =
      rw e (omega (arith, snapshot_balance active key h.helpers m h.ctx h.slot))
  step_balance m at_free h e =
      rw e (omega (arith, free_balance active key h.helpers m h.ctx h.slot))
  step_balance m at_start h e = rw e (omega arith)

  -- Over any sequence of probe hits, the releases of a bitmap that are reported are at most the
  -- snapshot creations of that bitmap, plus one if it was active at the start; if it is active at
  -- the end, they are one less.
  pub freed-le-created :
      (m : active.Map) (hs : List Hit)
      → freed_count active key m hs + active_count active (run active m hs) key
        ≤ created_count key hs + active_count active m key
  unfolding freed_count created_count run
  freed-le-created m [] = omega arith
  freed-le-created m (h ∷ hs) =
      omega (arith, step_balance m h.program h refl, freed-le-created (step active m h).0 hs)

module _ (active : ActiveBitmaps) (k k' : Helpers) (m : active.Map) (ctx ctx' : PtRegs)
    (same : freed_key k ctx ≡ freed_key k' ctx') where
  -- After a release of a bitmap, a second release of the same one is not reported: the program
  -- returns 0, submits nothing and leaves the map alone, whatever slots the two are given.
  pub free_twice :
      (slot slot' : Option BitmapAllocation)
      → let m' = (apply_free_function active k m ctx slot).0 in
        apply_free_function active k' m' ctx' slot' ≡ (m', record { ret = 0; submitted = none })
  unfolding apply_free_function
  free_twice slot slot' = elim (Bool-cases (active.has_elem m (freed_key k ctx))) [
    | inl on ↦ ground (
      arith,
      active.delete_removes m (freed_key k ctx) (freed_key k ctx),
      same_key_refl (freed_key k ctx),
    )
    | inr off ↦ ground arith
  ]
