-- ===== src/Loader/Macros/Structs.antt =====
-- bpf/headers/include/bpf_map_def.h: the structures that the eBPF programs are compiled with and the
-- loader reads, with all their fields, and how they are laid out.
use platform_packages_module.Prelude.{
  ℕ, ◌+◌, ◌-◌, ◌*◌, ◌^◌, ◌<◌, ◌≡◌, List, ◌∷◌, ◌++◌, Bool, if◌then◌else◌, Text, length, replicate,
}
use platform_packages_module.Loader.Bpffs.{MapDef, ProgDef}
use platform_packages_module.Loader.Elf.Image.{bytes_of}

-- What is to be ignored where: `ignore_on_eng` and its seven neighbours, one bit each.
pub record IgnoreOn : Type 0 where
  pub eng : Bool
  pub user : Bool
  pub userdebug : Bool
  pub arm32 : Bool
  pub aarch64 : Bool
  pub x86_32 : Bool
  pub x86_64 : Bool
  pub riscv64 : Bool

-- `struct bpf_map_def`; its two texts are arrays of 32 bytes.
pub record BpfMapDef : Type 0 where
  pub type : ℕ
  pub key_size : ℕ
  pub value_size : ℕ
  pub max_entries : ℕ
  pub map_flags : ℕ
  pub zero_field : ℕ
  pub gid : ℕ
  pub mode : ℕ
  pub bpfloader_min_ver : ℕ
  pub bpfloader_max_ver : ℕ
  pub min_kver : ℕ
  pub max_kver : ℕ
  pub selinux_context : List ℕ
  pub pin_subdir : List ℕ
  pub shared : Bool
  pub ignore : IgnoreOn
  pub uid : ℕ

-- `struct bpf_prog_def`
pub record BpfProgDef : Type 0 where
  pub uid : ℕ
  pub gid : ℕ
  pub min_kver : ℕ
  pub max_kver : ℕ
  pub optional : Bool
  pub ignore : IgnoreOn
  pub bpfloader_min_ver : ℕ
  pub bpfloader_max_ver : ℕ
  pub selinux_context : List ℕ
  pub pin_subdir : List ℕ

-- BPF_SELINUX_CONTEXT_CHAR_ARRAY_SIZE and BPF_PIN_SUBDIR_CHAR_ARRAY_SIZE
abbrev pub char_array_size : ℕ
char_array_size = 32

-- An array of that size that is initialized with a text.
abbrev pub char_array : Text → List ℕ
char_array t = t ++ replicate (char_array_size - length t) 0

abbrev pub bit : Bool → ℕ
bit b = if b then 1 else 0

abbrev pub ignore_byte : IgnoreOn → ℕ
ignore_byte g =
    bit g.eng
    + (2 * bit g.user
        + (4 * bit g.userdebug
            + (8 * bit g.arm32
                + (16 * bit g.aarch64
                    + (32 * bit g.x86_32 + (64 * bit g.x86_64 + 128 * bit g.riscv64))))))

-- The bytes of a `struct bpf_map_def`: the numbers, the two arrays, and what follows them.
abbrev pub map_def_numbers : BpfMapDef → List ℕ
map_def_numbers d =
    bytes_of 4 d.type
    ++ (bytes_of 4 d.key_size
        ++ (bytes_of 4 d.value_size
            ++ (bytes_of 4 d.max_entries
                ++ (bytes_of 4 d.map_flags
                    ++ (bytes_of 4 d.zero_field
                        ++ (bytes_of 4 d.gid
                            ++ (bytes_of 4 d.mode
                                ++ (bytes_of 4 d.bpfloader_min_ver
                                    ++ (bytes_of 4 d.bpfloader_max_ver
                                        ++ (bytes_of 4 d.min_kver ++ bytes_of 4 d.max_kver))))))))))

abbrev pub map_def_rest : BpfMapDef → List ℕ
map_def_rest d = bit d.shared ∷ ignore_byte d.ignore ∷ 0 ∷ 0 ∷ bytes_of 4 d.uid

abbrev pub map_def_bytes : BpfMapDef → List ℕ
map_def_bytes d = map_def_numbers d ++ ((d.selinux_context ++ d.pin_subdir) ++ map_def_rest d)

-- The bytes of a `struct bpf_prog_def` after `optional`.
abbrev pub prog_def_rest : BpfProgDef → List ℕ
prog_def_rest d =
    ignore_byte d.ignore
    ∷ 0
    ∷ 0
    ∷ (bytes_of 4 d.bpfloader_min_ver
        ++ (bytes_of 4 d.bpfloader_max_ver ++ (d.selinux_context ++ d.pin_subdir)))

-- The fields that the loader reads.
abbrev pub map_view : BpfMapDef → MapDef
map_view d = record {
  type = d.type;
  key_size = d.key_size;
  value_size = d.value_size;
  max_entries = d.max_entries;
  map_flags = d.map_flags;
  uid = d.uid;
  gid = d.gid;
  mode = d.mode;
  min_kver = d.min_kver;
  max_kver = d.max_kver;
  shared = d.shared;
  zero_field = d.zero_field;
}

abbrev pub prog_view : BpfProgDef → ProgDef
prog_view d = record {
  uid = d.uid;
  gid = d.gid;
  min_kver = d.min_kver;
  max_kver = d.max_kver;
  optional = d.optional;
}

-- The numbers of a definition fit their fields, and the arrays have their size.
pub record IsMapDef (d : BpfMapDef) : Type 0 where
  pub type : d.type < 2 ^ 32
  pub key_size : d.key_size < 2 ^ 32
  pub value_size : d.value_size < 2 ^ 32
  pub max_entries : d.max_entries < 2 ^ 32
  pub map_flags : d.map_flags < 2 ^ 32
  pub zero_field : d.zero_field < 2 ^ 32
  pub gid : d.gid < 2 ^ 32
  pub mode : d.mode < 2 ^ 32
  pub min_kver : d.min_kver < 2 ^ 32
  pub max_kver : d.max_kver < 2 ^ 32
  pub selinux_context : length d.selinux_context ≡ char_array_size
  pub pin_subdir : length d.pin_subdir ≡ char_array_size
  pub uid : d.uid < 2 ^ 32
