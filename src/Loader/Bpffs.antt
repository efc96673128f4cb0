-- ===== src/Loader/Bpffs.antt =====
-- What the loader takes from the kernel: the eBPF system calls and the file system of pinned
-- objects. Its state is a parameter that every call passes on.
use platform_packages_module.Prelude.{
  ℕ, ◌-◌, ◌≡◌, refl, ◌⊎◌, inl, inr, List, Option, Bool, not, ◌&&◌, ltb, leb, Text, ℤ, negsuc,
}

-- The error number of a failed call, or the descriptor or number that it returns.
pub data Answer : Type 0 where
  ok : ℕ → Answer
  errno : ℕ → Answer

-- To split on an answer and keep the equation.
pub Answer-cases : (a : Answer) → ((fd : ℕ) × (a ≡ ok fd)) ⊎ ((err : ℕ) × (a ≡ errno err))
Answer-cases (ok fd) = inl (fd, refl)
Answer-cases (errno err) = inr (err, refl)

-- `-err`; an error number is positive.
abbrev pub minus : ℕ → ℤ
minus err = negsuc (err - 1)

-- `struct bpf_map_def`, the fields that are read.
pub record MapDef : Type 0 where
  pub type : ℕ
  pub key_size : ℕ
  pub value_size : ℕ
  pub max_entries : ℕ
  pub map_flags : ℕ
  pub uid : ℕ
  pub gid : ℕ
  pub mode : ℕ
  pub min_kver : ℕ
  pub max_kver : ℕ
  pub shared : Bool
  pub zero_field : ℕ

-- `struct bpf_prog_def`, the fields that are read.
pub record ProgDef : Type 0 where
  pub uid : ℕ
  pub gid : ℕ
  pub min_kver : ℕ
  pub max_kver : ℕ
  pub optional : Bool

-- What is asked for with BPF_MAP_CREATE, and what the kernel tells of a map. (A number that it does
-- not tell is -1 as an unsigned number.)
pub record MapShape : Type 0 where
  pub type : ℕ
  pub key_size : ℕ
  pub value_size : ℕ
  pub max_entries : ℕ
  pub map_flags : ℕ

-- `struct bpf_insn`
pub record Insn : Type 0 where
  pub code : ℕ
  pub dst_reg : ℕ
  pub src_reg : ℕ
  pub off : ℕ
  pub imm : ℤ

-- What is asked for with BPF_PROG_LOAD.
pub record ProgRequest : Type 0 where
  pub prog_type : ℕ
  pub kern_version : ℕ
  pub license : Text
  pub insns : List Insn
  pub prog_name : Text

-- The calls. Pinning, `chmod` and `chown` answer with nothing, or with the error number.
pub record Bpffs : Type 1 where
  pub World : Type 0
  pub exists : World → Text → Bool
  pub retrieve_map : World → Text → World × Answer
  pub retrieve_prog : World → Text → World × Answer
  pub create_map : World → MapShape → Text → World × Answer
  pub load_prog : World → ProgRequest → World × Answer
  pub shape_of : World → ℕ → MapShape
  pub pin : World → ℕ → Text → World × Option ℕ
  pub chmod : World → Text → ℕ → World × Option ℕ
  pub chown : World → Text → ℕ → ℕ → World × Option ℕ

-- The kernel's version is within the half-open range of a definition.
abbrev pub in_range : ℕ → ℕ → ℕ → Bool
in_range kvers min_kver max_kver = not (ltb kvers min_kver) && not (leb max_kver kvers)
