-- ===== src/Progs/Kernel.antt =====
-- What the eBPF programs take from the kernel (bpf_helpers.h declares it, the kernel implements
-- it): the helper functions, and a ring buffer slot. Helpers are a parameter of every program.
use platform_packages_module.Prelude.{
  ℕ, ◌<◌, ◌≤◌, ◌≡◌, List, Option, none, some, Bool, true, ℤ, length, any, All, ◌==◌,
}

-- What `bpf_probe_read_user` returns, and the bytes that it leaves at its destination.
pub record Read : Type 0 where
  pub ret : ℤ
  pub bytes : List ℕ

pub record Helpers : Type 0 where
  -- size and address
  pub probe_read_user : ℕ → ℕ → Read
  -- size and address; the bytes that are written at the destination
  pub probe_read_user_str : ℕ → ℕ → List ℕ
  pub ktime_get_ns : ℕ
  pub get_current_pid_tgid : ℕ

abbrev pub IsByte : ℕ → Type 0
IsByte b = b < 256

-- The bytes up to the first NUL; a C string reader sees these.
abbrev pub has_nul : List ℕ → Bool
has_nul = any (λ b. b == 0)

-- The documented behaviour of the helpers: a read fills its destination also when it fails, and a
-- string read writes at most `size` bytes with a NUL among them.
pub record IsDocumented (k : Helpers) : Type 0 where
  pub read_size : (n a : ℕ) → length (k.probe_read_user n a).bytes ≡ n
  pub read_bytes : (n a : ℕ) → All IsByte (k.probe_read_user n a).bytes
  pub str_size : (n a : ℕ) → length (k.probe_read_user_str n a) ≤ n
  pub str_nul : (n a : ℕ) → 0 < n → has_nul (k.probe_read_user_str n a) ≡ true

-- What a program returns, and the record that it submits to its ring buffer.
pub record Outcome (R : Type 0) : Type 0 where
  pub ret : ℕ
  pub submitted : Option R

-- The program returns 0 and submits a record that has the property.
abbrev pub Submits : {R : Type 0} → Outcome R → (R → Type 0) → Type 0
Submits o P = (o.ret ≡ 0) × elim o.submitted [ none ↦ ⊥ | some r ↦ P r ]
