-- ===== src/Progs/Sample.antt =====
-- A small user memory and registers, at which the theorems on the programs are applied.
use platform_packages_module.Prelude.{
  ℕ, zero, suc, ◌+◌, ◌*◌, ◌^◌, ◌≤◌, ◌<◌, ◌≡◌, refl, List, [], ◌∷◌, true, arith, length, replicate,
  length-replicate, All, pos,
}
use platform_packages_module.Progs.Kernel.{Helpers, IsDocumented, IsByte, has_nul}
use platform_packages_module.Progs.Structs.{PtRegs}

-- Every read gives ones, and every string is "h".
abbrev pub letter_str : ℕ → List ℕ
letter_str zero = []
letter_str (suc zero) = 0 ∷ []
letter_str (suc (suc n)) = b'h' ∷ 0 ∷ []

abbrev pub helpers : Helpers
helpers = record {
  probe_read_user = λ n a. record { ret = pos 0; bytes = replicate n 1 };
  probe_read_user_str = λ n a. letter_str n;
  ktime_get_ns = 77;
  get_current_pid_tgid = 5 * 2 ^ 32 + 6;
}

ones-IsByte : (n : ℕ) → All IsByte (replicate n 1)
ones-IsByte zero = tt
ones-IsByte (suc n) = (omega arith, ones-IsByte n)

letter_size : (n : ℕ) → length (letter_str n) ≤ n
letter_size zero = omega arith
letter_size (suc zero) = omega arith
letter_size (suc (suc n)) = omega arith

letter_nul : (n : ℕ) → 0 < n → has_nul (letter_str n) ≡ true
letter_nul zero h = absurd (omega arith)
letter_nul (suc zero) h = refl
letter_nul (suc (suc n)) h = refl

pub helpers-IsDocumented : IsDocumented helpers
helpers-IsDocumented = record {
  read_size = λ n a. length-replicate n 1;
  read_bytes = λ n a. ones-IsByte n;
  str_size = λ n a. letter_size n;
  str_nul = λ n a. letter_nul n;
}

-- Registers 0 to 15.
abbrev pub registers : List ℕ
registers = 0 ∷ 1000 ∷ 7 ∷ 3 ∷ 4 ∷ 5 ∷ 10_006 ∷ 70 ∷ 8 ∷ 9 ∷ 10 ∷ 11 ∷ 12 ∷ 13 ∷ 14 ∷ 15 ∷ []

abbrev pub ctx : PtRegs
ctx = record { regs = registers; sp = 4096 }
