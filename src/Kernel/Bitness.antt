-- ===== src/Kernel/Bitness.antt =====
-- bpf/headers/include/bpf/KernelUtils.h: whether the kernel is a 64-bit one.
pub mod Laws
use platform_packages_module.Prelude.{
  ℕ, ◌*◌, ◌/◌, ◌-◌, ◌^◌, Option, none, some, Bool, true, false, not, ◌==◌, if◌then◌else◌, Text,
  codes, contains,
}

-- `personality`, which answers -1, as an unsigned number, for a failure, and the machine that
-- `uname` tells.
pub record Linux : Type 1 where
  pub World : Type 0
  pub personality : World → ℕ → World × ℕ
  pub machine : World → Text

-- 0xffffffff, which asks `personality` for no change, and is its answer for a failure.
abbrev pub no_change : ℕ
no_change = 2 ^ 32 - 1

-- `(p & ~PER_MASK) | PER_LINUX`
abbrev pub native : ℕ → ℕ
native p = p / 256 * 256

-- What `isKernel64Bit` leaves: the kernel's state, the static variables, and its result.
pub record Bitness (World : Type 0) : Type 0 where
  pub world : World
  pub cache : Option Bool
  pub is_64_bit : Bool

module _ (linux : Linux) where
  -- The part of `isKernel64Bit` that asks the kernel.
  unfoldable pub ask_bitness : linux.World → Bitness linux.World
  ask_bitness w =
      let (w1, p) = linux.personality w no_change in
      let (w2, q) = linux.personality w1 (native p) in
      let (w3, previous) = linux.personality w2 p in
      let answer = contains (linux.machine w2) (codes "64") in
      if p == no_change
      then record { world = w1; cache = none; is_64_bit = false }
      else if not (q == p)
      then record { world = w2; cache = none; is_64_bit = false }
      else record { world = w3; cache = some answer; is_64_bit = answer }

  -- `isKernel64Bit`, with the bitness of the user space.
  unfoldable pub is_kernel_64_bit :
      (user_64 : Bool) → Option Bool → linux.World → Bitness linux.World
  is_kernel_64_bit true cache w = record { world = w; cache = cache; is_64_bit = true }
  is_kernel_64_bit false (some b) w = record { world = w; cache = some b; is_64_bit = b }
  is_kernel_64_bit false none w = ask_bitness w

-- The architectures that the header knows; which one is known at compile time.
pub data Arch : Type 0 where
  arm x86 riscv : Arch

-- `describeArch`; `none` is the end of the function without a result.
unfoldable pub describe_arch : (user_64 kernel_64 : Bool) → Arch → Option Text
describe_arch true kernel_64 arm = some (codes "64-on-aarch64")
describe_arch true kernel_64 x86 = some (codes "64-on-x86-64")
describe_arch true kernel_64 riscv = some (codes "64-on-riscv64")
describe_arch false true arm = some (codes "32-on-aarch64")
describe_arch false true x86 = some (codes "32-on-x86-64")
describe_arch false false arm = some (codes "32-on-arm32")
describe_arch false false x86 = some (codes "32-on-x86-32")
describe_arch false kernel_64 riscv = none
