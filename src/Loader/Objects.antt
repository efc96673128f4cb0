-- ===== src/Loader/Objects.antt =====
-- bpfloader/UprobeStatsBpfLoad.cpp: `loadProg`, `loadAllElfObjects`, the directory of the pinned
-- objects and `load`.
pub mod Laws
use platform_packages_module.Prelude.{
  ℕ, List, [], ◌∷◌, ◌++◌, Option, none, some, Bool, true, false, not, ◌&&◌, ◌==◌, if◌then◌else◌,
  Text, codes, ℤ, pos, negsuc, is_zero,
}
use platform_packages_module.LibBase.{LibBase}
use platform_packages_module.Loader.Bpffs.{Bpffs, minus}
use platform_packages_module.Loader.Stream.{Answer}
use platform_packages_module.Loader.Maps.{ElfMaps, Ended, aborted, undefined, returned, create_maps}
use platform_packages_module.Loader.Relo.{CodeSection, apply_map_relo}
use platform_packages_module.Loader.Code.{load_code_sections}

-- What reading an object file answers: whether it opens, the results of reading its sections, and
-- what they hold.
pub record ElfObject : Type 0 where
  pub is_open : Bool
  pub critical_ret : ℤ
  pub license_ret : ℤ
  pub license : Text
  pub code_ret : ℤ
  pub code : List CodeSection
  pub maps : ElfMaps
  pub symbol_name : ℕ → Answer Text

-- What `loadProg` leaves: the state of the kernel, how it ended, and `*isCritical`.
pub record Loaded (World : Type 0) : Type 0 where
  pub world : World
  pub ended : Ended
  pub critical : Bool

module _ (base : LibBase) (sys : Bpffs) (page_size kvers : ℕ) (prefix : Text) where
  -- The part of `loadProg` from the relocation on.
  unfoldable pub load_relocated :
      (elf_path : Text) (elf : ElfObject) (map_fds : List (Option ℕ))
      → sys.World
      → sys.World × Ended
  load_relocated elf_path elf map_fds w =
      let names = if is_zero elf.maps.names_ret then some elf.maps.names else none in
      elim (apply_map_relo elf.symbol_name names map_fds elf.code) [
        | none ↦ (w, undefined)
        | some code ↦
            let (w1, ret) = load_code_sections base sys kvers prefix elf_path elf.license code w in
            (w1, returned ret)
      ]

  -- The part of `loadProg` from the maps on.
  unfoldable pub load_object : Text → ElfObject → sys.World → sys.World × Ended
  load_object elf_path elf w =
      let made = create_maps base sys page_size kvers prefix elf_path elf.maps w in
      let loaded = load_relocated elf_path elf made.map_fds made.world in
      elim made.ended [
        | aborted ↦ (made.world, aborted)
        | undefined ↦ (made.world, undefined)
        | returned ret ↦ if is_zero ret then loaded else (made.world, returned ret)
      ]

  -- `loadProg`
  unfoldable pub load_prog : Text → ElfObject → sys.World → Loaded sys.World
  load_prog elf_path elf w =
      let critical = is_zero elf.critical_ret in
      let (w1, ended) = load_object elf_path elf w in
      if not elf.is_open
      then record { world = w; ended = returned (negsuc 0); critical = false }
      else if not (is_zero elf.license_ret)
      then record { world = w; ended = returned elf.license_ret; critical = critical }
      else if not (is_zero elf.code_ret)
      then record { world = w; ended = returned elf.code_ret; critical = critical }
      else record { world = w1; ended = ended; critical = critical }

-- What `loadAllElfObjects` leaves; without an ending the loader was stopped on the way.
pub record AllLoaded (World : Type 0) : Type 0 where
  pub world : World
  pub ended : Ended

module _ (base : LibBase) {World : Type 0} (load : Text → World → Loaded World) where
  -- The loop of `loadAllElfObjects` over the names in the directory. `load` is `loadProg` of the
  -- file with that name; `ret_val` is the value to return so far.
  unfoldable pub load_loop : World → ℤ → List Text → AllLoaded World
  load_loop w ret_val [] = record { world = w; ended = returned ret_val }
  load_loop w ret_val (name ∷ names) =
      let skipped = load_loop w ret_val names in
      let out = load name w in
      let fine = load_loop out.world ret_val names in
      let failed = λ (ret : ℤ). load_loop out.world ret names in
      if not (base.ends_with name (codes ".o")) then skipped else elim out.ended [
        | aborted ↦ record { world = out.world; ended = aborted }
        | undefined ↦ record { world = out.world; ended = undefined }
        | returned ret ↦ if is_zero ret then fine else if out.critical then failed ret else fine
      ]

-- `loadAllElfObjects`; `none` is a directory that cannot be opened.
unfoldable pub load_all_elf_objects :
    (base : LibBase) (sys : Bpffs) (page_size kvers : ℕ) (prefix dir : Text)
    (file : Text → ElfObject)
    → Option (List Text)
    → sys.World
    → AllLoaded sys.World
load_all_elf_objects base sys page_size kvers prefix dir file none w = record {
  world = w;
  ended = returned (pos 0);
}
load_all_elf_objects base sys page_size kvers prefix dir file (some names) w =
    load_loop base
      (λ name. load_prog base sys page_size kvers prefix (dir ++ name) (file (dir ++ name))) w
      (pos 0) names

-- What `createSysFsBpfSubDir` leaves: its result, and the process's umask.
pub record SubDir : Type 0 where
  pub ret : ℤ
  pub umask : ℕ

-- EEXIST
abbrev pub eexist : ℕ
eexist = 17

-- `createSysFsBpfSubDir`; `mkdir` answers with nothing, or with the error number.
unfoldable pub create_sys_fs_bpf_sub_dir :
    (mkdir : (umask : ℕ) → Text → Option ℕ) → (umask : ℕ) → (prefix : Text) → SubDir
create_sys_fs_bpf_sub_dir mkdir umask [] = record { ret = pos 0; umask = umask }
create_sys_fs_bpf_sub_dir mkdir umask (c ∷ cs) = elim (mkdir 0 (codes "/sys/fs/bpf/" ++ (c ∷ cs))) [
  | none ↦ record { ret = pos 0; umask = umask }
  | some err ↦
      if err == eexist
      then record { ret = pos 0; umask = umask }
      else record { ret = minus err; umask = 0 }
]
