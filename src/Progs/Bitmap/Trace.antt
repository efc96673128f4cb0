-- ===== src/Progs/Bitmap/Trace.antt =====
-- The programs of bpf_progs/BitmapAllocation.c as they run one after another, on one map.
use platform_packages_module.Prelude.{
  ℕ, ◌+◌, List, [], ◌∷◌, Option, Bool, false, ◌&&◌, if◌then◌else◌, is_some,
}
use platform_packages_module.Progs.Kernel.{Helpers, Outcome}
use platform_packages_module.Progs.Structs.{PtRegs, reg, BitmapAllocation}
use platform_packages_module.Progs.Bitmap.{
  BitmapKey, same_key, ActiveBitmaps, bitmap_creation, current_key, freed_key,
  activity_perform_start, bitmap_creation_for_snapshot, apply_free_function,
}

pub data BitmapProgram : Type 0 where
  at_creation at_snapshot at_free at_start : BitmapProgram

-- A probe hit: the program, what it is given, and the slot that the ring buffer has for it.
pub record Hit : Type 0 where
  pub program : BitmapProgram
  pub helpers : Helpers
  pub ctx : PtRegs
  pub slot : Option BitmapAllocation

module _ (active : ActiveBitmaps) where
  open active use {Map}

  unfoldable pub dispatch : BitmapProgram → Map → Hit → Map × Outcome BitmapAllocation
  dispatch at_creation m h = (m, bitmap_creation h.helpers h.ctx h.slot)
  dispatch at_snapshot m h = bitmap_creation_for_snapshot active h.helpers m h.ctx h.slot
  dispatch at_free m h = apply_free_function active h.helpers m h.ctx h.slot
  dispatch at_start m h = (m, activity_perform_start h.helpers h.ctx h.slot)

  unfoldable pub step : Map → Hit → Map × Outcome BitmapAllocation
  step m h = dispatch h.program m h

  -- The map after a sequence of hits.
  unfoldable pub run : Map → List Hit → Map
  run m [] = m
  run m (h ∷ hs) = run (step m h).0 hs

-- The hit is a snapshot creation of the bitmap.
unfoldable pub creates : BitmapKey → Hit → Bool
creates key h = elim h.program [
  | at_snapshot ↦ same_key (current_key h.helpers (reg h.ctx 3)) key
  | _ ↦ false
]

-- The hit frees the bitmap.
unfoldable pub frees : BitmapKey → Hit → Bool
frees key h = elim h.program [ at_free ↦ same_key (freed_key h.helpers h.ctx) key | _ ↦ false ]

-- How many hits of a sequence create the bitmap.
unfoldable pub created_count : BitmapKey → List Hit → ℕ
created_count key [] = 0
created_count key (h ∷ hs) = (if creates key h then 1 else 0) + created_count key hs

-- How often a sequence of hits reports that the bitmap was freed.
unfoldable pub freed_count : (active : ActiveBitmaps) → BitmapKey → active.Map → List Hit → ℕ
freed_count active key m [] = 0
freed_count active key m (h ∷ hs) =
    (if frees key h && is_some (step active m h).1.submitted then 1 else 0)
    + freed_count active key (step active m h).0 hs
