-- ===== src/Loader/Boot/Laws.antt =====
-- The loader at boot: which programs it asks the kernel for.
use platform_packages_module.Prelude.{
  ℕ, [], ◌∷◌, ◌++◌, ◌≡◌, Option, some, Text, pos, arith, Option-cases, ap, inl, inr,
}
use platform_packages_module.LibBase.{LibBase}
use platform_packages_module.Loader.Bpffs
use platform_packages_module.Loader.Bpffs.{ProgRequest, Bpffs}
use platform_packages_module.Loader.Names.{prog_type_kprobe, is_allowed_type, allowed_in}
use platform_packages_module.Loader.Objects.{load_loop}
use platform_packages_module.Loader.Sections.Laws.{IsPermittedType}
use platform_packages_module.Loader.Files.Requests.{load_file-other}
use platform_packages_module.Loader.Boot.{
  Location, uprobestats, ObjectFiles, load_location, legacy_bpf_loader, load_at_boot,
}

module _ (base : LibBase) (sys : Bpffs) (page_size kvers fuse : ℕ) (files : ObjectFiles)
    (load' : sys.World → ProgRequest → sys.World × Bpffs.Answer) where
  abbrev other : Bpffs
  other = record sys { load_prog = load' }

  load_location-other :
      (l : Location)
      → ((w : sys.World) (r : ProgRequest)
          → IsPermittedType fuse l.allowed_prog_types r.prog_type
          → load' w r ≡ sys.load_prog w r)
      → (w : sys.World)
      → load_location base other page_size kvers fuse files l w
        ≡ load_location base sys page_size kvers fuse files l w
  unfolding load_location
  load_location-other l agree w = elim (Option-cases (files.names_in l.dir)) [
    | inl e ↦ ground (arith, e)
    | inr (names, e) ↦
        rw (e, load_location)
          (ap (λ load. load_loop base load w (pos 0) names)
            (λ i name w'.
              load_file-other fuse l.allowed_prog_types sys load' agree kvers l.prefix base
                page_size (l.dir ++ name) (files.bytes_of_file (l.dir ++ name)) w' i))
  ]

  -- Only kernel probes are permitted at the loader's location.
  permitted-kprobe :
      (type : ℕ)
      → IsPermittedType fuse (some (prog_type_kprobe ∷ [])) type
      → type ≡ prog_type_kprobe
  unfolding is_allowed_type allowed_in
  permitted-kprobe type (known, allowed) = ground (arith, allowed)

  -- Whatever objects lie in the loader's directory and whatever they hold, at boot it never asks the
  -- kernel for a program that is not a kernel probe: another kernel, which answers alike for those,
  -- is left in the same state, with the same ending.
  pub load_at_boot-other :
      (mkdir : (umask : ℕ) → Text → Option ℕ) (umask : ℕ)
      → ((w : sys.World) (r : ProgRequest)
          → r.prog_type ≡ prog_type_kprobe
          → load' w r ≡ sys.load_prog w r)
      → (w : sys.World)
      → load_at_boot base other page_size kvers fuse files mkdir umask w
        ≡ load_at_boot base sys page_size kvers fuse files mkdir umask w
  unfolding load_at_boot legacy_bpf_loader
  load_at_boot-other mkdir umask agree w = ground (
    arith,
    load_location-other uprobestats (λ w' r p. agree w' r (permitted-kprobe r.prog_type p)) w,
  )
