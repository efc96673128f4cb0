-- ===== src/Kernel/Version.antt =====
-- bpf/headers/include/bpf/KernelUtils.h: the version of the kernel as one number.
pub mod Laws
use platform_packages_module.Prelude.{
  ℕ, ◌+◌, ◌*◌, ◌^◌, List, [], ◌∷◌, Option, none, some, Bool, not, ◌&&◌, ◌||◌, leb, Text, u32,
}

-- `KVER(a, b, c)` of unsigned numbers
unfoldable pub kver : ℕ → ℕ → ℕ → ℕ
kver a b c = u32 (a * 2 ^ 24 + b * 2 ^ 16 + c)

-- `uncachedKernelVersion`: the release that `uname` tells, if it succeeds, and the property
-- ro.bpf.kver_override, which may be empty. `scan` is `sscanf` with "%u.%u.%u" into three zeros.
unfoldable pub uncached_kernel_version :
    (scan : Text → ℕ × ℕ × ℕ) → (release : Option Text) → (override : Text) → ℕ
uncached_kernel_version scan none override = 0
uncached_kernel_version scan (some release) [] = let (a, b, c) = scan release in kver a b c
uncached_kernel_version scan (some release) (x ∷ xs) = let (a, b, c) = scan (x ∷ xs) in kver a b c

-- `kernelVersion`, with the static variable: the first answer is kept.
unfoldable pub kernel_version : Option ℕ → (uncached : ℕ) → Option ℕ × ℕ
kernel_version none uncached = (some uncached, uncached)
kernel_version (some kept) uncached = (some kept, kept)

-- `isAtLeastKernelVersion`
unfoldable pub is_at_least_kernel_version : (kvers major minor sub : ℕ) → Bool
is_at_least_kernel_version kvers major minor sub = leb (kver major minor sub) kvers

-- `isKernelVersion`
unfoldable pub is_kernel_version : (kvers major minor : ℕ) → Bool
is_kernel_version kvers major minor =
    is_at_least_kernel_version kvers major minor 0
    && not (is_at_least_kernel_version kvers major (minor + 1) 0)

-- `isLtsKernel`
unfoldable pub is_lts_kernel : ℕ → Bool
is_lts_kernel kvers =
    is_kernel_version kvers 4 4
    || (is_kernel_version kvers 4 9
        || (is_kernel_version kvers 4 14
            || (is_kernel_version kvers 4 19
                || (is_kernel_version kvers 5 4
                    || (is_kernel_version kvers 5 10
                        || (is_kernel_version kvers 5 15
                            || (is_kernel_version kvers 6 1
                                || (is_kernel_version kvers 6 6
                                    || is_kernel_version kvers 6 12))))))))
