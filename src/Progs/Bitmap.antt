-- ===== src/Progs/Bitmap.antt =====
-- bpf_progs/BitmapAllocation.c. The hash map `active_bitmaps` lives in the kernel: its operations
-- and their documented laws are a parameter.
pub mod Laws
pub mod Trace
use platform_packages_module.Prelude.{
  ℕ, ◌+◌, ◌/◌, ◌^◌, ◌≡◌, ◌⊎◌, Option, none, some, Bool, true, false, ◌&&◌, ◌==◌, if◌then◌else◌, u32,
  le,
}
use platform_packages_module.Progs.Kernel.{Helpers, Outcome}
use platform_packages_module.Progs.Structs.{max_string_length, PtRegs, reg, BitmapAllocation}
use platform_packages_module.Progs.Fns.{read_word, record_string, load}

-- `struct BitmapKey`
pub record BitmapKey : Type 0 where
  pub tgid : ℕ
  pub native_ptr : ℕ

abbrev pub same_key : BitmapKey → BitmapKey → Bool
same_key a b = (a.tgid == b.tgid) && (a.native_ptr == b.native_ptr)

-- A kernel hash map with the presence of a key as all that is read of it. An update may fail, as
-- when the map is full.
pub record ActiveBitmaps : Type 1 where
  pub Map : Type 0
  pub has_elem : Map → BitmapKey → Bool
  pub update_noexist : Map → BitmapKey → Map
  pub delete_elem : Map → BitmapKey → Map
  pub update_adds :
      (m : Map) (k j : BitmapKey)
      → has_elem (update_noexist m k) j ≡ true
      → (has_elem m j ≡ true) ⊎ (same_key k j ≡ true)
  pub delete_removes :
      (m : Map) (k j : BitmapKey)
      → has_elem (delete_elem m k) j ≡ (if same_key k j then false else has_elem m j)

unfoldable pub bitmap_constructor_heap : Option ℕ → Outcome ℕ
bitmap_constructor_heap none = record { ret = 1; submitted = none }
bitmap_constructor_heap (some output) = record { ret = 0; submitted = some 123 }

module _ (k : Helpers) where
  -- The pointer to the `Bitmap` at the start of its wrapper, and a number within the `Bitmap`.
  unfoldable pub bitmap_field : (offset size wrapper : ℕ) → ℕ
  bitmap_field offset size wrapper =
      let bitmap_ptr = le (load k 0 8 wrapper).bytes in le (load k offset size bitmap_ptr).bytes

  unfoldable pub bitmap_creation : PtRegs → Option BitmapAllocation → Outcome BitmapAllocation
  bitmap_creation ctx none = record { ret = 1; submitted = none }
  bitmap_creation ctx (some output) = record {
    ret = 0;
    submitted = some (record output {
      width = u32 (reg ctx 4);
      height = u32 (reg ctx 5);
      pixel_storage_type = bitmap_field 0x78 4 (reg ctx 3);
    });
  }

  unfoldable pub current_key : ℕ → BitmapKey
  current_key native_ptr = record {
    tgid = k.get_current_pid_tgid / 2 ^ 32;
    native_ptr = native_ptr;
  }

  -- The key that `apply_free_function` looks up.
  unfoldable pub freed_key : PtRegs → BitmapKey
  freed_key ctx = current_key (read_word k 8 (reg ctx 1 + 16))

  unfoldable pub activity_perform_start :
      PtRegs → Option BitmapAllocation → Outcome BitmapAllocation
  activity_perform_start ctx none = record { ret = 1; submitted = none }
  activity_perform_start ctx (some output) =
      let component_name_ptr = read_word k 4 (reg ctx 1 + 76) in
      let class_ptr = read_word k 4 (component_name_ptr + 8) in
      record {
        ret = 0;
        submitted = some (record output {
          type = 2;
          activity_name = record_string k class_ptr max_string_length output.activity_name;
        });
      }

module _ (active : ActiveBitmaps) (k : Helpers) where
  open active use {Map, has_elem, update_noexist, delete_elem}

  unfoldable pub bitmap_creation_for_snapshot :
      Map → PtRegs → Option BitmapAllocation → Map × Outcome BitmapAllocation
  bitmap_creation_for_snapshot m ctx none = (m, record { ret = 1; submitted = none })
  bitmap_creation_for_snapshot m ctx (some output) = (
    update_noexist m (current_key k (reg ctx 3)),
    record {
      ret = 0;
      submitted = some (record output {
        type = 0;
        width = u32 (reg ctx 4);
        height = u32 (reg ctx 5);
        pixel_storage_type = bitmap_field k 0x78 4 (reg ctx 3);
        bitmap_size = bitmap_field k 152 4 (reg ctx 3);
        native_ptr = reg ctx 3;
      });
    },
  )

  -- What `apply_free_function` submits for a bitmap that was active.
  unfoldable pub report_free : BitmapKey → Option BitmapAllocation → Outcome BitmapAllocation
  report_free key none = record { ret = 1; submitted = none }
  report_free key (some output) = record {
    ret = 0;
    submitted = some (record output { type = 1; native_ptr = key.native_ptr });
  }

  unfoldable pub apply_free_function :
      Map → PtRegs → Option BitmapAllocation → Map × Outcome BitmapAllocation
  unfolding report_free
  apply_free_function m ctx slot =
      let key = freed_key k ctx in
      if has_elem m key
      then (delete_elem m key, report_free key slot)
      else (m, record { ret = 0; submitted = none })
