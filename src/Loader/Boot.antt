-- ===== src/Loader/Boot.antt =====
-- bpfloader/UprobeStatsBpfLoad.cpp: the locations of the objects, and `main`.
pub mod Laws
use platform_packages_module.Prelude.{
  ℕ, List, [], ◌∷◌, ◌++◌, Option, none, some, Bool, true, false, if◌then◌else◌, Text, codes, ℤ, pos,
  is_zero,
}
use platform_packages_module.LibBase.{LibBase}
use platform_packages_module.Loader.Bpffs.{Bpffs}
use platform_packages_module.Loader.Names.{prog_type_kprobe}
use platform_packages_module.Loader.Maps.{Ended, aborted, undefined, returned}
use platform_packages_module.Loader.Objects.{
  AllLoaded, load_loop, SubDir, create_sys_fs_bpf_sub_dir,
}
use platform_packages_module.Loader.Files.{load_file}

-- `Location`
pub record Location : Type 0 where
  pub dir : Text
  pub prefix : Text
  pub allowed_prog_types : Option (List ℕ)

-- `locations`, which has one element.
abbrev pub uprobestats : Location
uprobestats = record {
  dir = codes "/apex/com.android.uprobestats/etc/bpf/uprobestats/";
  prefix = codes "uprobestats/";
  allowed_prog_types = some (prog_type_kprobe ∷ []);
}

abbrev pub locations : List Location
locations = uprobestats ∷ []

-- `createBpfFsSubDirectories`, with the process's umask; true is a failure.
unfoldable pub create_bpf_fs_sub_directories :
    (mkdir : (umask : ℕ) → Text → Option ℕ) → (umask : ℕ) → List Location → Bool × ℕ
create_bpf_fs_sub_directories mkdir umask [] = (false, umask)
create_bpf_fs_sub_directories mkdir umask (l ∷ ls) =
    let made = create_sys_fs_bpf_sub_dir mkdir umask l.prefix in
    let rest = create_bpf_fs_sub_directories mkdir made.umask ls in
    if is_zero made.ret then rest else (true, made.umask)

-- The file system with the objects: the names in a directory, if it opens, and the bytes of a file.
pub record ObjectFiles : Type 0 where
  pub names_in : Text → Option (List Text)
  pub bytes_of_file : Text → Option (List ℕ)

module _ (base : LibBase) (sys : Bpffs) (page_size kvers fuse : ℕ) (files : ObjectFiles) where
  -- `loadAllElfObjects` of a location.
  unfoldable pub load_location : Location → sys.World → AllLoaded sys.World
  load_location l w = elim (files.names_in l.dir) [
    | none ↦ record { world = w; ended = returned (pos 0) }
    | some names ↦
        load_loop base
          (λ name w'.
            load_file base sys page_size kvers fuse l.prefix l.allowed_prog_types (l.dir ++ name)
              (files.bytes_of_file (l.dir ++ name)) w')
          w (pos 0) names
  ]

  -- `legacyBpfLoader`: the results are only logged; the loop goes on unless the loader is stopped.
  unfoldable pub legacy_bpf_loader : List Location → sys.World → AllLoaded sys.World
  legacy_bpf_loader [] w = record { world = w; ended = returned (pos 0) }
  legacy_bpf_loader (l ∷ ls) w =
      let out = load_location l w in
      let rest = legacy_bpf_loader ls out.world in
      elim out.ended [ aborted ↦ out | undefined ↦ out | returned ret ↦ rest ]

  -- `load`, the part of `main` before `execve`.
  unfoldable pub load_at_boot :
      (mkdir : (umask : ℕ) → Text → Option ℕ) → (umask : ℕ) → sys.World → AllLoaded sys.World
  load_at_boot mkdir umask w =
      let (failed, umask') = create_bpf_fs_sub_directories mkdir umask locations in
      if failed
      then record { world = w; ended = returned (pos 0) }
      else legacy_bpf_loader locations w
