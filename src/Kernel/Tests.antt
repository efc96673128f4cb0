-- ===== src/Kernel/Tests.antt =====
-- The theorems on the kernel's calls at concrete inputs.
use platform_packages_module.Prelude.{
  ℕ, ◌≡◌, ◌⊎◌, inl, inr, List, [], ◌∷◌, if◌then◌else◌, Text, codes, text_eq, refl, arith, ℤ, pos,
  negsuc,
}
use platform_packages_module.Kernel.Calls.{Command, obj_get}
use platform_packages_module.Kernel.Lock.{
  LockType, read_lock, write_lock, Files, map_retrieve_exclusive_rw, map_retrieve_rw,
  map_retrieve_wo, usable_program,
}
use platform_packages_module.Kernel.Lock.Laws.{IsFiles, Owns, retrieve-Owns}

-- The open descriptors; a map whose lock is held cannot be locked.
abbrev get_object : List ℕ → Command → List ℕ × ℤ
get_object w (obj_get path flag) =
    if text_eq path (codes "/none") then (w, negsuc 0) else (7 ∷ w, pos 7)
get_object w _ = (w, negsuc 0)

abbrev close_last : List ℕ → List ℕ
close_last [] = []
close_last (fd ∷ others) = others

abbrev files : Files
files = record {
  World = List ℕ;
  bpf = get_object;
  info = λ w fd. record { ret = pos 0; errno = 0; info_len = 80; number = λ offset. 3 };
  set_lock = λ w fd type start. (w, elim type [ read_lock ↦ pos 0 | write_lock ↦ negsuc 0 ]);
  close = λ w fd. close_last w;
}

set_lock-answers :
    (w : List ℕ) (fd : ℕ) (type : LockType) (start : ℕ)
    → ((files.set_lock w fd type start).1 ≡ pos 0) ⊎ ((files.set_lock w fd type start).1 ≡ negsuc 0)
set_lock-answers w fd read_lock start = inl refl
set_lock-answers w fd write_lock start = inr refl

files-IsFiles : IsFiles files
files-IsFiles = record {
  open_fds = λ w. w;
  opens = λ w path flag n h. ground (arith, h);
  refuses = λ w path flag n h. ground (arith, h);
  locks = λ w fd type start. refl;
  lock_answers = set_lock-answers;
  closes = λ w fd others h. ground (arith, h);
}

abbrev path : Text
path = codes "/sys/fs/bpf/uprobestats/map_Generic_buf"

retrieve-Owns_example :
    Owns
      (2 ∷ [])
      (map_retrieve_exclusive_rw files (2 ∷ []) path).0
      (map_retrieve_exclusive_rw files (2 ∷ []) path).1
    × Owns (2 ∷ []) (map_retrieve_rw files (2 ∷ []) path).0 (map_retrieve_rw files (2 ∷ []) path).1
    × Owns (2 ∷ []) (map_retrieve_wo files (2 ∷ []) path).0 (map_retrieve_wo files (2 ∷ []) path).1
    × ((usable_program files (2 ∷ []) path).0 ≡ 2 ∷ [])
unfolding files-IsFiles
retrieve-Owns_example = retrieve-Owns files files-IsFiles (2 ∷ []) path
