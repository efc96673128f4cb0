-- ===== src/Loader/Macros.antt =====
-- bpf/headers/include/bpf_helpers.h: the definitions of maps and programs that the eBPF programs make,
-- which the loader reads, and the sections of LICENSE and CRITICAL. An argument that is a text is the
-- list of its bytes.
pub mod Structs
pub mod Laws
pub mod RoundTrip
mod Tests
use Prim.Native.Nat.{bit_and}
use platform_packages_module.Prelude.{
  ℕ, ◌+◌, ◌-◌, ◌^◌, Bool, true, false, not, ◌&&◌, ◌||◌, ◌==◌, leb, ltb, if◌then◌else◌, List, [],
  ◌∷◌, ◌++◌, Text, codes,
}
use platform_packages_module.Loader.Maps.{map_type_ringbuf, map_def_size}
use platform_packages_module.Loader.Sections.{prog_def_size}
use platform_packages_module.Loader.Elf.Image.{bytes_of}
use platform_packages_module.Loader.Macros.Structs.{IgnoreOn, BpfMapDef, BpfProgDef, char_array}
use platform_packages_module.Kernel.Version.{kver}

-- `KVER_NONE`, `KVER_INF` and the named versions
abbrev pub kver_none : ℕ
kver_none = 0

abbrev pub kver_inf : ℕ
kver_inf = 2 ^ 32 - 1

abbrev pub kver_5_8 : ℕ
kver_5_8 = kver 5 8 0

-- `KVER_IS_AT_LEAST`
unfoldable pub kver_is_at_least : (kver_of a b c : ℕ) → Bool
kver_is_at_least kver_of a b c = leb (kver a b c) kver_of

-- The versions of the loader.
abbrev pub bpfloader_t_version : ℕ
bpfloader_t_version = 19

abbrev pub bpfloader_ignored_on_version : ℕ
bpfloader_ignored_on_version = 33

abbrev pub bpfloader_platform_version : ℕ
bpfloader_platform_version = 41

abbrev pub bpfloader_mainline_version : ℕ
bpfloader_mainline_version = 42

-- `BPFLOADER_MIN_VER` and `BPFLOADER_MAX_VER`
abbrev pub bpfloader_min_ver : ℕ
bpfloader_min_ver = bpfloader_platform_version

abbrev pub bpfloader_max_ver : ℕ
bpfloader_max_ver = 0x10000

-- A section that a macro makes: its name and its contents.
abbrev pub MadeSection : Type 0
MadeSection = Text × List ℕ

-- `LICENSE`; a `size_t` has 8 bytes, and an array of `char` ends with a zero.
unfoldable pub license : Text → List MadeSection
license name =
    (codes "bpfloader_min_ver", bytes_of 4 bpfloader_min_ver)
    ∷ (codes "bpfloader_max_ver", bytes_of 4 bpfloader_max_ver)
    ∷ (codes "size_of_bpf_map_def", bytes_of 8 map_def_size)
    ∷ (codes "size_of_bpf_prog_def", bytes_of 8 prog_def_size)
    ∷ (codes "btf_min_bpfloader_ver", bytes_of 4 bpfloader_mainline_version)
    ∷ (codes "btf_user_min_bpfloader_ver", bytes_of 4 0xFFFFFFFF)
    ∷ (codes "license", name ++ (0 ∷ []))
    ∷ []

-- `CRITICAL`
unfoldable pub critical : Text → MadeSection
critical reason = (codes "critical", reason ++ (0 ∷ []))

-- What the macros take for ignoring: on three kinds of builds. The bits for architectures stay 0.
abbrev pub ignore_on : (eng user userdebug : Bool) → IgnoreOn
ignore_on eng user userdebug = record {
  eng = eng;
  user = user;
  userdebug = userdebug;
  arm32 = false;
  aarch64 = false;
  x86_32 = false;
  x86_64 = false;
  riscv64 = false;
}

-- `LOAD_ON_ENG`, `LOAD_ON_USER`, `LOAD_ON_USERDEBUG`
abbrev pub load_always : IgnoreOn
load_always = ignore_on false false false

-- `BPF_ASSERT_LOADER_VERSION`
unfoldable pub bpf_assert_loader_version : (min_loader : ℕ) → IgnoreOn → Bool
bpf_assert_loader_version min_loader ignore =
    leb bpfloader_ignored_on_version min_loader
    || not (ignore.eng || (ignore.user || ignore.userdebug))

-- The arguments that the macros for maps share.
pub record MapOptions : Type 0 where
  pub usr : ℕ
  pub grp : ℕ
  pub md : ℕ
  pub selinux : Text
  pub pindir : Text
  pub share : Bool
  pub minloader : ℕ
  pub maxloader : ℕ
  pub ignore : IgnoreOn

-- `DEFINE_BPF_MAP_BASE`; fields that are left out are zero.
unfoldable pub define_bpf_map_base :
    (type key_size value_size num_entries : ℕ) → MapOptions → (min_kver max_kver : ℕ) → BpfMapDef
define_bpf_map_base type key_size value_size num_entries o min_kver max_kver = record {
  type = type;
  key_size = key_size;
  value_size = value_size;
  max_entries = num_entries;
  map_flags = 0;
  zero_field = 0;
  gid = o.grp;
  mode = o.md;
  bpfloader_min_ver = o.minloader;
  bpfloader_max_ver = o.maxloader;
  min_kver = min_kver;
  max_kver = max_kver;
  selinux_context = char_array o.selinux;
  pin_subdir = char_array o.pindir;
  shared = o.share;
  ignore = o.ignore;
  uid = o.usr;
}

-- `DEFINE_BPF_RINGBUF_EXT`, for kernels from 5.8 on.
unfoldable pub define_bpf_ringbuf_ext : (size_bytes : ℕ) → MapOptions → BpfMapDef
define_bpf_ringbuf_ext size_bytes o =
    define_bpf_map_base map_type_ringbuf 0 0 size_bytes o kver_5_8 kver_inf

-- The three assertions of `DEFINE_BPF_RINGBUF_EXT`.
unfoldable pub ringbuf_asserts : (size_bytes : ℕ) → Bool
ringbuf_asserts size_bytes =
    leb 4096 size_bytes && (leb size_bytes (2 ^ 28) && (bit_and size_bytes (size_bytes - 1) == 0))

-- A private map for all builds, in the default place, for the default versions of the loader.
abbrev pub default_options : (usr grp md : ℕ) → MapOptions
default_options usr grp md = record {
  usr = usr;
  grp = grp;
  md = md;
  selinux = [];
  pindir = [];
  share = false;
  minloader = bpfloader_min_ver;
  maxloader = bpfloader_max_ver;
  ignore = load_always;
}

-- `DEFINE_BPF_RINGBUF`
unfoldable pub define_bpf_ringbuf : (size_bytes usr grp md : ℕ) → BpfMapDef
define_bpf_ringbuf size_bytes usr grp md =
    define_bpf_ringbuf_ext size_bytes (default_options usr grp md)

-- BPF_MAP_TYPE_ARRAY
abbrev pub map_type_array : ℕ
map_type_array = 2

-- `BPF_MAP_ASSERT_OK`, for a program that is not for tests, by the least version of the loader.
unfoldable pub bpf_map_assert_ok : (min_ver type entries mode : ℕ) → Bool
bpf_map_assert_ok min_ver type entries mode =
    if leb bpfloader_t_version min_ver
    then true
    else not (type == map_type_array) || (leb entries 1 || (bit_and mode 0x92 == 0))

-- `DEFINE_BPF_MAP_EXT`, for all kernels.
unfoldable pub define_bpf_map_ext :
    (type key_size value_size num_entries : ℕ) → MapOptions → BpfMapDef
define_bpf_map_ext type key_size value_size num_entries o =
    define_bpf_map_base type key_size value_size num_entries o kver_none kver_inf

-- The assertions of `DEFINE_BPF_MAP_EXT` on sizes.
unfoldable pub map_asserts : (key_size value_size : ℕ) → Bool
map_asserts key_size value_size = ltb key_size 1024 && ltb value_size 65536

-- AID_ROOT, also `DEFAULT_BPF_MAP_UID`
abbrev pub aid_root : ℕ
aid_root = 0

-- `DEFINE_BPF_MAP_KERNEL_INTERNAL`
unfoldable pub define_bpf_map_kernel_internal :
    (type key_size value_size num_entries : ℕ) → BpfMapDef
define_bpf_map_kernel_internal type key_size value_size num_entries =
    define_bpf_map_ext type key_size value_size num_entries
      (record (default_options aid_root aid_root 0) { selinux = codes "fs_bpf_loader" })

-- `DEFINE_BPF_MAP_UGM`
unfoldable pub define_bpf_map_ugm :
    (type key_size value_size num_entries usr grp md : ℕ) → BpfMapDef
define_bpf_map_ugm type key_size value_size num_entries usr grp md =
    define_bpf_map_ext type key_size value_size num_entries (default_options usr grp md)

-- `DEFINE_BPF_MAP`, with the mode 0600.
unfoldable pub define_bpf_map : (type key_size value_size num_entries : ℕ) → BpfMapDef
define_bpf_map type key_size value_size num_entries =
    define_bpf_map_ugm type key_size value_size num_entries aid_root aid_root 0x180

-- `DEFINE_BPF_MAP_RO`, `GWO`, `GRO` and `GRW`, with the modes 0440, 0620, 0640 and 0660.
unfoldable pub define_bpf_map_ro : (type key_size value_size num_entries gid : ℕ) → BpfMapDef
define_bpf_map_ro type key_size value_size num_entries gid =
    define_bpf_map_ugm type key_size value_size num_entries aid_root gid 0x120

unfoldable pub define_bpf_map_gwo : (type key_size value_size num_entries gid : ℕ) → BpfMapDef
define_bpf_map_gwo type key_size value_size num_entries gid =
    define_bpf_map_ugm type key_size value_size num_entries aid_root gid 0x190

unfoldable pub define_bpf_map_gro : (type key_size value_size num_entries gid : ℕ) → BpfMapDef
define_bpf_map_gro type key_size value_size num_entries gid =
    define_bpf_map_ugm type key_size value_size num_entries aid_root gid 0x1a0

unfoldable pub define_bpf_map_grw : (type key_size value_size num_entries gid : ℕ) → BpfMapDef
define_bpf_map_grw type key_size value_size num_entries gid =
    define_bpf_map_ugm type key_size value_size num_entries aid_root gid 0x1b0

-- `DEFINE_BPF_PROG_EXT`
unfoldable pub define_bpf_prog_ext :
    (uid gid min_kver max_kver min_loader max_loader : ℕ) (opt : Bool) (selinux pindir : Text)
    → IgnoreOn
    → BpfProgDef
define_bpf_prog_ext uid gid min_kver max_kver min_loader max_loader opt selinux pindir ignore =
    record {
      uid = uid;
      gid = gid;
      min_kver = min_kver;
      max_kver = max_kver;
      optional = opt;
      ignore = ignore;
      bpfloader_min_ver = min_loader;
      bpfloader_max_ver = max_loader;
      selinux_context = char_array selinux;
      pin_subdir = char_array pindir;
    }

-- `DEFINE_BPF_PROG_KVER_RANGE_OPT`
unfoldable pub define_bpf_prog_kver_range_opt :
    (uid gid min_kver max_kver : ℕ) (opt : Bool) → BpfProgDef
define_bpf_prog_kver_range_opt uid gid min_kver max_kver opt =
    define_bpf_prog_ext uid gid min_kver max_kver bpfloader_min_ver bpfloader_max_ver opt [] []
      load_always

-- `DEFINE_BPF_PROG_KVER_RANGE` and `DEFINE_OPTIONAL_BPF_PROG_KVER_RANGE`
unfoldable pub define_bpf_prog_kver_range : (uid gid min_kver max_kver : ℕ) → BpfProgDef
define_bpf_prog_kver_range uid gid min_kver max_kver =
    define_bpf_prog_kver_range_opt uid gid min_kver max_kver false

unfoldable pub define_optional_bpf_prog_kver_range : (uid gid min_kver max_kver : ℕ) → BpfProgDef
define_optional_bpf_prog_kver_range uid gid min_kver max_kver =
    define_bpf_prog_kver_range_opt uid gid min_kver max_kver true

-- `DEFINE_BPF_PROG_KVER`, and the same for an optional program.
unfoldable pub define_bpf_prog_kver : (uid gid min_kver : ℕ) (opt : Bool) → BpfProgDef
define_bpf_prog_kver uid gid min_kver opt =
    define_bpf_prog_kver_range_opt uid gid min_kver kver_inf opt

-- `DEFINE_BPF_PROG`, and the same for an optional program.
unfoldable pub define_bpf_prog : (uid gid : ℕ) (opt : Bool) → BpfProgDef
define_bpf_prog uid gid opt = define_bpf_prog_kver_range_opt uid gid kver_none kver_inf opt
