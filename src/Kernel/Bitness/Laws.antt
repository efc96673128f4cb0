-- ===== src/Kernel/Bitness/Laws.antt =====
-- `isKernel64Bit`: the thread's personality afterwards.
use platform_packages_module.Prelude.{
  ℕ, ◌≡◌, ◌≢◌, refl, Option, none, some, Bool, true, false, arith,
}
use platform_packages_module.Kernel.Bitness.{
  Linux, no_change, native, ask_bitness, is_kernel_64_bit,
}

-- `personality` as it is documented, with the personality of a state: 0xffffffff only reads it, any
-- other number becomes the personality, and the answer is the previous one.
pub record IsLinux (linux : Linux) : Type 0 where
  pub persona : linux.World → ℕ
  pub reads : (w : linux.World) → linux.personality w no_change ≡ (w, persona w)
  pub answers : (w : linux.World) (p : ℕ) → (linux.personality w p).1 ≡ persona w
  pub sets : (w : linux.World) (p : ℕ) → p ≢ no_change → persona (linux.personality w p).0 ≡ p

module _ (linux : Linux) (l : IsLinux linux) where
  ask_bitness-persona : (w : linux.World) → l.persona (ask_bitness linux w).world ≡ l.persona w
  unfolding ask_bitness
  ask_bitness-persona w = ground (
    arith,
    l.reads w,
    l.answers w (native (l.persona w)),
    l.sets (linux.personality w (native (l.persona w))).0 (l.persona w),
  )

  -- Asking whether the kernel is a 64-bit one leaves the thread's personality as it was, although it
  -- changes it on the way, if `personality` behaves as documented.
  is_kernel_64_bit-persona :
      (user_64 : Bool) (cache : Option Bool) (w : linux.World)
      → l.persona (is_kernel_64_bit linux user_64 cache w).world ≡ l.persona w
  unfolding is_kernel_64_bit
  is_kernel_64_bit-persona true cache w = refl
  is_kernel_64_bit-persona false (some b) w = refl
  is_kernel_64_bit-persona false none w = ask_bitness-persona w
