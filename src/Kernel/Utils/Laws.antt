-- ===== src/Kernel/Utils/Laws.antt =====
-- How long is waited for the loader.
use Prim.Native.Nat.{min}
use native.Mathlib.Nat.{two-pow-succ}
use platform_packages_module.Prelude.{
  ℕ, zero, suc, ◌*◌, ◌^◌, ◌≡◌, List, [], ◌∷◌, ◌++◌, Bool, true, false, replicate, ltb,
  if◌then◌else◌, arith,
}
use platform_packages_module.Kernel.Utils.{wait_loop, wait_for_progs_loaded}

-- The delays from the k-th on: 5 seconds, doubled each time, but at most 60.
abbrev delays : (k count : ℕ) → List ℕ
delays k zero = []
delays k (suc count) = min 60 (5 * 2 ^ k) ∷ delays (suc k) count

wait_loop-delays :
    (n k delay : ℕ) (rest : List Bool)
    → min 60 delay ≡ min 60 (5 * 2 ^ k)
    → wait_loop delay (replicate n false ++ (true ∷ rest)) ≡ (delays k (suc n), true)
unfolding wait_loop
wait_loop-delays zero k delay rest e =
    let w : (if ltb 60 delay then 60 else delay) ≡ min 60 (5 * 2 ^ k) = ground (arith, e) in
    λ i. (w i ∷ [], true)
wait_loop-delays (suc n) k delay rest e =
    let w : (if ltb 60 delay then 60 else delay) ≡ min 60 (5 * 2 ^ k) = ground (arith, e) in
    let others =
      wait_loop-delays n (suc k) ((if ltb 60 delay then 60 else delay) * 2) rest
        (omega (arith, w, two-pow-succ k)) in
    λ i. (w i ∷ (others i).0, (others i).1)

-- If the loader is done after some time outs, `waitForProgsLoaded` returns then, and not before: the
-- delays were 5 seconds at first, then twice the one before, but at most 60.
wait_for_progs_loaded-delays :
    (timeouts : ℕ) (rest : List Bool)
    → wait_for_progs_loaded (replicate timeouts false ++ (true ∷ rest))
      ≡ (delays 0 (suc timeouts), true)
unfolding wait_for_progs_loaded
wait_for_progs_loaded-delays timeouts rest = wait_loop-delays timeouts 0 5 rest (omega arith)
