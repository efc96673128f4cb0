-- ===== src/Kernel/Calls.antt =====
-- bpf/syscall_wrappers/include/BpfSyscallWrappers.h: the requests to the `bpf` system call.
use platform_packages_module.Prelude.{
  ℕ, ◌+◌, not, ◌==◌, ltb, if◌then◌else◌, Text, ℤ, pos, negsuc, is_zero, to_int32,
}

-- The commands, each with the fields of `bpf_attr` that are not zero; a key or a value is the
-- address of its bytes.
pub data Command : Type 0 where
  map_create : (map_type key_size value_size max_entries map_flags inner_map_fd : ℕ) → Command
  map_update_elem : (map_fd key value flags : ℕ) → Command
  map_lookup_elem : (map_fd key value : ℕ) → Command
  map_delete_elem : (map_fd key : ℕ) → Command
  map_get_next_key : (map_fd key next_key : ℕ) → Command
  obj_pin : (path : Text) (bpf_fd : ℕ) → Command
  obj_get : (path : Text) (file_flags : ℕ) → Command
  prog_attach : (target_fd attach_bpf_fd attach_type attach_flags : ℕ) → Command
  prog_detach : (target_fd attach_bpf_fd attach_type : ℕ) → Command
  prog_run : (prog_fd data_size_in data_in : ℕ) → Command

abbrev pub create_map : (map_type key_size value_size max_entries map_flags : ℕ) → Command
create_map map_type key_size value_size max_entries map_flags =
    map_create map_type key_size value_size max_entries map_flags 0

abbrev pub create_outer_map :
    (map_type key_size value_size max_entries map_flags inner_map_fd : ℕ) → Command
create_outer_map map_type key_size value_size max_entries map_flags inner_map_fd =
    map_create map_type key_size value_size max_entries map_flags inner_map_fd

abbrev pub write_to_map_entry : (map_fd key value flags : ℕ) → Command
write_to_map_entry map_fd key value flags = map_update_elem map_fd key value flags

abbrev pub find_map_entry : (map_fd key value : ℕ) → Command
find_map_entry map_fd key value = map_lookup_elem map_fd key value

abbrev pub delete_map_entry : (map_fd key : ℕ) → Command
delete_map_entry map_fd key = map_delete_elem map_fd key

abbrev pub get_next_map_key : (map_fd key next_key : ℕ) → Command
get_next_map_key map_fd key next_key = map_get_next_key map_fd key next_key

-- The null pointer asks for the first key.
abbrev pub get_first_map_key : (map_fd first_key : ℕ) → Command
get_first_map_key map_fd first_key = get_next_map_key map_fd 0 first_key

abbrev pub bpf_fd_pin : (map_fd : ℕ) → Text → Command
bpf_fd_pin map_fd path = obj_pin path map_fd

abbrev pub bpf_fd_get : Text → (flag : ℕ) → Command
bpf_fd_get path flag = obj_get path flag

abbrev pub attach_program : (type prog_fd cg_fd flags : ℕ) → Command
attach_program type prog_fd cg_fd flags = prog_attach cg_fd prog_fd type flags

abbrev pub detach_program : (type cg_fd : ℕ) → Command
detach_program type cg_fd = prog_detach cg_fd 0 type

abbrev pub detach_single_program : (type prog_fd cg_fd : ℕ) → Command
detach_single_program type prog_fd cg_fd = prog_detach cg_fd prog_fd type

abbrev pub run_program : (prog_fd data_at data_size : ℕ) → Command
run_program prog_fd data_at data_size = prog_run prog_fd data_size data_at

-- What `BPF_PROG_QUERY` answers: its result, the number of programs, and the first id, which was -1.
pub record Query : Type 0 where
  pub ret : ℤ
  pub prog_cnt : ℕ
  pub prog_id : ℤ

-- `queryProgram`
unfoldable pub query_program : Query → ℤ
query_program q =
    if not (is_zero q.ret) then q.ret else if q.prog_cnt == 0 then pos 0 else q.prog_id

-- What `BPF_OBJ_GET_INFO_BY_FD` answers: its result and error number, how much of the structure the
-- kernel knows, and the 32-bit numbers of the structure by their offsets.
pub record Info : Type 0 where
  pub ret : ℤ
  pub errno : ℕ
  pub info_len : ℕ
  pub number : ℕ → ℕ

-- An `int` with `errno`.
pub record Result : Type 0 where
  pub ret : ℤ
  pub errno : ℕ

-- EOPNOTSUPP
abbrev pub eopnotsupp : ℕ
eopnotsupp = 95

-- `DEFINE_BPF_GET_FD`, for a field of 32 bits at an offset.
unfoldable pub bpf_get_fd : (offset : ℕ) → Info → Result
bpf_get_fd offset info =
    if not (is_zero info.ret)
    then record { ret = info.ret; errno = info.errno }
    else if ltb info.info_len (offset + 4)
    then record { ret = negsuc 0; errno = eopnotsupp }
    else record { ret = to_int32 (info.number offset); errno = info.errno }

-- The fields of `struct bpf_map_info` and `struct bpf_prog_info` that are asked for.
abbrev pub bpf_get_fd_map_type : Info → Result
bpf_get_fd_map_type = bpf_get_fd 0

abbrev pub bpf_get_fd_map_id : Info → Result
bpf_get_fd_map_id = bpf_get_fd 4

abbrev pub bpf_get_fd_key_size : Info → Result
bpf_get_fd_key_size = bpf_get_fd 8

abbrev pub bpf_get_fd_value_size : Info → Result
bpf_get_fd_value_size = bpf_get_fd 12

abbrev pub bpf_get_fd_max_entries : Info → Result
bpf_get_fd_max_entries = bpf_get_fd 16

abbrev pub bpf_get_fd_map_flags : Info → Result
bpf_get_fd_map_flags = bpf_get_fd 20

abbrev pub bpf_get_fd_prog_id : Info → Result
bpf_get_fd_prog_id = bpf_get_fd 4
