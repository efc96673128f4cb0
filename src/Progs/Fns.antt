-- ===== src/Progs/Fns.antt =====
-- uprobestats_bpf_fns.h: reading Java strings and user memory from an eBPF program.
pub mod Laws
use platform_packages_module.Prelude.{
  ℕ, ◌+◌, ◌/◌, ◌%◌, ◌^◌, List, ◌++◌, Bool, true, ltb, if◌then◌else◌, length, drop, get_or, u32, u64,
  le,
}
use platform_packages_module.Progs.Kernel.{Helpers, Read}
use platform_packages_module.Progs.Structs.{PtRegs, reg}

-- Bytes written from the start of an array. Where they are more than the array holds, the result
-- is longer than the array: the write went over its end.
unfoldable pub store : List ℕ → List ℕ → List ℕ
store dest bytes = bytes ++ drop (length bytes) dest

module _ (k : Helpers) where
  -- A `size` byte number at an address, read into a variable that is zero or as wide.
  unfoldable pub read_word : ℕ → ℕ → ℕ
  read_word size address = le (k.probe_read_user size (u64 address)).bytes

  -- How many bytes `recordString` asks for.
  unfoldable pub string_size : ℕ → ℕ → ℕ
  unfolding read_word
  string_size jstring max_length =
      let count = read_word 4 (jstring + 8) / 2 in
      if ltb max_length (u32 (count + 1)) then max_length else u32 (count + 1)

  -- `recordString`: the destination's new contents.
  unfoldable pub record_string : ℕ → ℕ → List ℕ → List ℕ
  record_string jstring max_length dest =
      store dest (k.probe_read_user_str (string_size jstring max_length) (u64 (jstring + 16)))

  -- `recordStringArg`
  unfoldable pub record_string_arg : PtRegs → ℕ → ℕ → List ℕ → List ℕ
  record_string_arg ctx max_length position dest =
      record_string (reg ctx (2 + position)) max_length dest

  -- `recordStringArgFromSp`
  unfoldable pub record_string_arg_from_sp : PtRegs → ℕ → ℕ → List ℕ → List ℕ
  record_string_arg_from_sp ctx max_length sp_offset dest =
      record_string (read_word 4 (ctx.sp + sp_offset)) max_length dest

  -- `load`: the top byte of the address, which may be a tag, is dropped.
  unfoldable pub load : ℕ → ℕ → ℕ → Read
  load offset size user_space_address =
      let canonical_address = user_space_address % 2 ^ 56 in
      k.probe_read_user size (u64 (canonical_address + offset))
