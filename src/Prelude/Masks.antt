-- ===== src/Prelude/Masks.antt =====
-- `x & (2 ^ k - 1)` is the remainder by `2 ^ k`, at every width.
use Prim.Native.Nat.{
  ℕ, zero, suc, ◌+◌, ◌-◌, ◌*◌, ◌/◌, ◌%◌, ◌^◌, ◌≤◌, ◌<◌, min, digits, bit_and, bit_and-bitwise,
}
use mathlib.Core.Path.{◌≡◌, ◌∙◌}
use native.Mathlib.Nat.{two-pow-succ}
use native.Mathlib.Omega.{arith}

pow_pos : (k : ℕ) → 0 < 2 ^ k
pow_pos zero = omega arith
pow_pos (suc k) = omega (arith, pow_pos k, two-pow-succ k)

-- A remainder by twice `p`, from the lowest digit and the rest.
mod_double : (a p : ℕ) → 0 < p → (a / 2) % p * 2 + a % 2 ≡ a % (p + p)
mod_double a p h = grind arith

mask_half : (p : ℕ) → 0 < p → (p + p - 1) / 2 ≡ p - 1
mask_half p h = omega arith

mask_digits : (n k a : ℕ) → a ≤ n → digits (λ b. zero) min n a (2 ^ k - 1) ≡ a % 2 ^ k
mask_digits zero k zero h = grind (arith, pow_pos k)
mask_digits zero k (suc a) h = absurd (omega arith)
mask_digits (suc n) k zero h = grind (arith, pow_pos k)
mask_digits (suc n) zero (suc a) h = omega (arith, mask_digits n zero (suc a / 2) (omega arith))
mask_digits (suc n) (suc k) (suc a) h =
    rw (two-pow-succ k, mask_half (2 ^ k) (pow_pos k))
      (omega (
        arith,
        pow_pos k,
        mask_digits n k (suc a / 2) (omega arith),
        mod_double (suc a) (2 ^ k) (pow_pos k),
      ))

pub bit_and_mask : (k a : ℕ) → bit_and a (2 ^ k - 1) ≡ a % 2 ^ k
bit_and_mask k a = bit_and-bitwise a (2 ^ k - 1) ∙ mask_digits a k a (omega arith)
