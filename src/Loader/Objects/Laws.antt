-- ===== src/Loader/Objects/Laws.antt =====
-- `loadAllElfObjects` and the directory: what a failure costs.
use platform_packages_module.Prelude.{
  ℕ, List, [], ◌∷◌, ◌≡◌, ◌≢◌, Option, true, false, Text, ℤ, pos, arith, ◌⊎◌, inl, inr, codes,
}
use platform_packages_module.LibBase.{LibBase}
use platform_packages_module.Loader.Maps.{returned}
use platform_packages_module.Loader.Objects.{Loaded, load_loop, create_sys_fs_bpf_sub_dir}

module _ (base : LibBase) {World : Type 0} (load : Text → World → Loaded World) where
  -- Each object file in turn is loaded, or fails without being critical; the others are passed over.
  abbrev Tolerable : World → List Text → World → Type 0
  Tolerable w [] w' = w ≡ w'
  Tolerable w (name ∷ names) w' =
      ((base.ends_with name (codes ".o") ≡ false) × Tolerable w names w')
      ⊎ ((base.ends_with name (codes ".o") ≡ true)
          × ((ret : ℤ) × ((load name w).ended ≡ returned ret)
              × ((ret ≡ pos 0) ⊎ ((load name w).critical ≡ false)))
          × Tolerable (load name w).world names w')

  -- If the loading of each object file returns, with 0 or for an object that is not critical, then
  -- all object files of the directory are tried, one after another, also after one that failed, and
  -- the loader reports success.
  pub load_loop-Tolerable :
      (w w' : World) (names : List Text)
      → Tolerable w names w'
      → load_loop base load w (pos 0) names ≡ record { world = w'; ended = returned (pos 0) }
  unfolding load_loop
  load_loop-Tolerable w w' [] t = ground (arith, t)
  load_loop-Tolerable w w' (name ∷ names) (inl (o, t)) =
      ground (arith, o, load_loop-Tolerable w w' names t)
  load_loop-Tolerable w w' (name ∷ names) (inr (o, (ret, e, c), t)) =
      ground (arith, o, e, c, load_loop-Tolerable (load name w).world w' names t)

-- For a prefix that is not empty, either the result is 0 and the umask of the process is as it was
-- before, or the result is an error and the umask is left at 0.
pub sub_dir_umask :
    (mkdir : ℕ → Text → Option ℕ) (umask : ℕ) (c : ℕ) (cs : Text)
    → let out = create_sys_fs_bpf_sub_dir mkdir umask (c ∷ cs) in
      ((out.ret ≡ pos 0) × (out.umask ≡ umask)) ⊎ ((out.ret ≢ pos 0) × (out.umask ≡ 0))
unfolding create_sys_fs_bpf_sub_dir
sub_dir_umask mkdir umask c cs = ground arith
