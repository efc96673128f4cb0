-- ===== src/Loader/Maps.antt =====
-- bpfloader/UprobeStatsBpfLoad.cpp, `createMaps` and `mapMatchesExpectations`.
pub mod Laws
use platform_packages_module.Prelude.{
  ℕ, ◌+◌, ◌*◌, ◌/◌, ◌%◌, ◌^◌, List, [], ◌∷◌, ◌++◌, Option, none, some, Bool, true, false, not, ◌&&◌,
  ◌||◌, ◌==◌, ltb, leb, if◌then◌else◌, Text, codes, ℤ, pos, negsuc, is_zero, take,
}
use platform_packages_module.LibBase.{LibBase}
use platform_packages_module.Loader.Bpffs.{
  Answer, ok, errno, minus, MapDef, MapShape, Bpffs, in_range,
}
use platform_packages_module.Loader.Names.{path_to_obj_name}

-- The types of map that the loader names, as the kernel numbers them.
abbrev pub map_type_hash : ℕ
map_type_hash = 1

abbrev pub map_type_devmap : ℕ
map_type_devmap = 14

abbrev pub map_type_devmap_hash : ℕ
map_type_devmap_hash = 25

abbrev pub map_type_ringbuf : ℕ
map_type_ringbuf = 27

-- `KVER(5, 4, 0)`
abbrev pub kver_5_4 : ℕ
kver_5_4 = 5 * 2 ^ 24 + 4 * 2 ^ 16

-- How a function of the loader ends: by `abort`, by a read outside an array, or by returning.
pub data Ended : Type 0 where
  aborted undefined : Ended
  returned : ℤ → Ended

-- BPF_F_RDONLY_PROG is set in the flags.
unfoldable pub with_rdonly_prog : ℕ → ℕ
with_rdonly_prog flags = if flags / 128 % 2 == 1 then flags else flags + 128

-- The type that is asked for: DEVMAP_HASH is approximated by HASH before kernel 5.4.
unfoldable pub effective_type : (kvers : ℕ) → ℕ → ℕ
effective_type kvers type =
    if type == map_type_devmap_hash && ltb kvers kver_5_4 then map_type_hash else type

-- The entries that are asked for: a ring buffer has a page at least.
unfoldable pub effective_entries : (page_size type max_entries : ℕ) → ℕ
effective_entries page_size type max_entries =
    if type == map_type_ringbuf && ltb max_entries page_size then page_size else max_entries

-- `mapMatchesExpectations`, on what the kernel tells of the map.
unfoldable pub map_matches_expectations : (page_size : ℕ) → MapShape → MapDef → (type : ℕ) → Bool
map_matches_expectations page_size fd def type =
    let flags =
      if type == map_type_devmap || type == map_type_devmap_hash
      then with_rdonly_prog def.map_flags
      else def.map_flags in
    (fd.type == type)
    && ((fd.key_size == def.key_size)
        && ((fd.value_size == def.value_size)
            && ((fd.max_entries == effective_entries page_size type def.max_entries)
                && (fd.map_flags == flags))))

-- What `createMaps` leaves: the state of the kernel, how it ended, and the descriptors, with
-- nothing for a map that was skipped.
pub record Created (World : Type 0) : Type 0 where
  pub world : World
  pub ended : Ended
  pub map_fds : List (Option ℕ)

abbrev finish : {World : Type 0} → World → Ended → List (Option ℕ) → Created World
finish w ended fds = record { world = w; ended = ended; map_fds = fds }

-- A descriptor, or nothing, in front of those of the maps that follow.
abbrev put : {World : Type 0} → Option ℕ → Created World → Created World
put fd out = record { world = out.world; ended = out.ended; map_fds = fd ∷ out.map_fds }

module _ (sys : Bpffs) (page_size kvers : ℕ) (prefix obj_name : Text) where
  -- `mapPinLoc`
  unfoldable pub map_pin_loc : MapDef → Text → Text
  map_pin_loc def name =
      codes "/sys/fs/bpf/"
      ++ (prefix
          ++ (codes "map_" ++ ((if def.shared then [] else obj_name) ++ (codes "_" ++ name))))

  -- What is asked for with BPF_MAP_CREATE.
  unfoldable pub requested : MapDef → MapShape
  requested def =
      let type = effective_type kvers def.type in
      record {
        type = type;
        key_size = def.key_size;
        value_size = def.value_size;
        max_entries = effective_entries page_size type def.max_entries;
        map_flags = def.map_flags;
      }

  -- The pinning of a map that was created: nothing, or the error number of the call that failed.
  unfoldable pub pin_map : sys.World → MapDef → ℕ → Text → sys.World × Option ℕ
  pin_map w def fd path =
      let (w1, pinned) = sys.pin w fd path in
      let (w2, changed) = sys.chmod w1 path def.mode in
      elim pinned [
        | some err ↦ (w1, some err)
        | none ↦ elim changed [
          | some err ↦ (w2, some err)
          | none ↦ sys.chown w2 path def.uid def.gid
        ]
      ]

  -- The check of a map's shape, and its pinning unless it was pinned before. The answer is the
  -- descriptor, or the error number.
  unfoldable pub accept_map : Bool → sys.World → MapDef → ℕ → Text → sys.World × Answer
  accept_map reuse w def fd path =
      let (w1, pinned) = pin_map w def fd path in
      if not
        (map_matches_expectations page_size (sys.shape_of w fd) def (effective_type kvers def.type))
      then (w, errno 76)
      else if reuse
      then (w, ok fd)
      else (w1, elim pinned [ some err ↦ errno err | none ↦ ok fd ])

  -- One map within its range of kernel versions: retrieved if it is pinned, else created, under
  -- the 15 bytes of its name that `strlcpy` keeps.
  unfoldable pub obtain_map : sys.World → MapDef → Text → sys.World × Answer
  obtain_map w def name =
      let path = map_pin_loc def name in
      let reuse = sys.exists w path in
      let (w1, answer) =
        if reuse
        then sys.retrieve_map w path
        else sys.create_map w (requested def) (take 15 name) in
      elim answer [ errno err ↦ (w1, errno err) | ok fd ↦ accept_map reuse w1 def fd path ]

  -- The loop of `createMaps` over the names, with the definitions that stand at their indices.
  unfoldable pub create_loop : sys.World → List Text → List MapDef → Created sys.World
  create_loop w [] defs = finish w (returned (pos 0)) []
  create_loop w (name ∷ names) [] = finish w undefined []
  create_loop w (name ∷ names) (def ∷ defs) =
      let (w1, answer) = obtain_map w def name in
      let skipped = create_loop w names defs in
      let rest = create_loop w1 names defs in
      if not (def.zero_field == 0)
      then finish w aborted []
      else if not (in_range kvers def.min_kver def.max_kver)
      then put none skipped
      else elim answer [
        | errno err ↦ finish w1 (returned (minus err)) []
        | ok fd ↦ put (some fd) rest
      ]

abbrev pub is_minus_two : ℤ → Bool
is_minus_two (pos n) = false
is_minus_two (negsuc n) = n == 1

-- What reading an object for its maps answers: the results of reading the section and the names of
-- its symbols, and what they hold.
pub record ElfMaps : Type 0 where
  pub section_ret : ℤ
  pub section_size : ℕ
  pub defs : List MapDef
  pub names_ret : ℤ
  pub names : List Text

-- `sizeof(struct bpf_map_def)`
abbrev pub map_def_size : ℕ
map_def_size = 120

-- `createMaps`
unfoldable pub create_maps :
    (base : LibBase) (sys : Bpffs) (page_size kvers : ℕ) (prefix elf_path : Text)
    → ElfMaps
    → sys.World
    → Created sys.World
create_maps base sys page_size kvers prefix elf_path elf w =
    let stop = λ (ret : ℤ). finish w (returned ret) [] in
    if is_minus_two elf.section_ret
    then stop (pos 0)
    else if not (is_zero elf.section_ret)
    then stop elf.section_ret
    else if not (elf.section_size % map_def_size == 0)
    then stop (negsuc 0)
    else if not (is_zero elf.names_ret)
    then stop elf.names_ret
    else create_loop sys page_size kvers prefix (path_to_obj_name base elf_path) w elf.names
        elf.defs
