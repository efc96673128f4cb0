-- ===== src/Loader/Files/Requests.antt =====
-- `loadProg` of a file: which programs it asks the kernel for.
use platform_packages_module.Prelude.{
  ℕ, List, [], ◌∷◌, Option, none, some, false, ◌≡◌, refl, Text, All, is_zero, if◌then◌else◌, negsuc,
  arith, Option-cases, inl, inr,
}
use platform_packages_module.LibBase.{LibBase}
use platform_packages_module.Loader.Bpffs
use platform_packages_module.Loader.Bpffs.{ProgRequest, ProgDef, MapDef, Bpffs, in_range}
use platform_packages_module.Loader.Names.{path_to_obj_name}
use platform_packages_module.Loader.Stream.{Answer-cases, opened, answer_of}
use platform_packages_module.Loader.Stream.Laws.{Holds→value}
use platform_packages_module.Loader.Sections.Laws.{IsPermitted, IsPermittedType}
use platform_packages_module.Loader.Relo.{CodeSection, apply_map_relo}
use platform_packages_module.Loader.Maps.{
  create_maps, create_loop, obtain_map, accept_map, pin_map, map_pin_loc, requested,
}
use platform_packages_module.Loader.Code.{
  load_section, load_sections, load_code_sections, obtain_prog, pin_prog, prog_request,
  prog_pin_loc,
}
use platform_packages_module.Loader.Objects.{ElfObject, load_relocated, load_object, load_prog}
use platform_packages_module.Loader.Files.{read_object, load_file, object_with}
use platform_packages_module.Loader.Files.Permitted.{
  ProgramsPermitted, read_object-ProgramsPermitted, apply_map_relo-IsPermitted,
}

module _ (fuse : ℕ) (allowed : Option (List ℕ)) where
  -- Two kernels that differ in the programs that they are not asked for.
  module _ (sys : Bpffs) (load' : sys.World → ProgRequest → sys.World × Bpffs.Answer) where
    abbrev other : Bpffs
    other = record sys { load_prog = load' }

    module _
        (agree : (w : sys.World) (r : ProgRequest)
          → IsPermittedType fuse allowed r.prog_type
          → load' w r ≡ sys.load_prog w r)
        (kvers : ℕ) (prefix : Text) where
      load_section-other :
          (obj_name license : Text) (w : sys.World) (c : CodeSection)
          → IsPermitted fuse allowed c
          → load_section other kvers prefix obj_name license w c
            ≡ load_section sys kvers prefix obj_name license w c
      unfolding load_section obtain_prog pin_prog prog_request prog_pin_loc
      load_section-other obj_name license w c p =
          ground (arith, agree w (prog_request sys kvers prefix obj_name license c) p)

      load_sections-other :
          (obj_name license : Text) (w : sys.World) (cs : List CodeSection)
          → All (IsPermitted fuse allowed) cs
          → load_sections other kvers prefix obj_name license w cs
            ≡ load_sections sys kvers prefix obj_name license w cs
      unfolding load_sections
      load_sections-other obj_name license w [] a = refl
      load_sections-other obj_name license w (c ∷ cs) (p, a) = ground (
        arith,
        load_section-other obj_name license w c p,
        load_sections-other obj_name license (load_section sys kvers prefix obj_name license w c).0
            cs a,
      )

      load_relocated-other :
          (base : LibBase) (page_size : ℕ) (path : Text) (elf : ElfObject) (fds : List (Option ℕ))
          (w : sys.World)
          → ProgramsPermitted fuse allowed elf
          → load_relocated base other page_size kvers prefix path elf fds w
            ≡ load_relocated base sys page_size kvers prefix path elf fds w
      unfolding load_relocated load_code_sections
      load_relocated-other base page_size path elf fds w a =
          let names = if is_zero elf.maps.names_ret then some elf.maps.names else none in
          elim (Option-cases (apply_map_relo elf.symbol_name names fds elf.code)) [
            | inl e ↦ ground (arith, e)
            | inr (ds, e) ↦ ground (
              arith,
              e,
              load_sections-other (path_to_obj_name base path) elf.license w ds (
                  apply_map_relo-IsPermitted fuse allowed elf.symbol_name names fds elf.code ds e
                    a),
            )
          ]

      create_loop-other :
          (page_size : ℕ) (obj_name : Text) (w : sys.World) (names : List Text) (defs : List MapDef)
          → create_loop other page_size kvers prefix obj_name w names defs
            ≡ create_loop sys page_size kvers prefix obj_name w names defs
      unfolding create_loop obtain_map accept_map pin_map map_pin_loc requested
      create_loop-other page_size obj_name w [] defs = refl
      create_loop-other page_size obj_name w (name ∷ names) [] = refl
      create_loop-other page_size obj_name w (name ∷ names) (def ∷ defs) = ground (
        arith,
        create_loop-other page_size obj_name w names defs,
        create_loop-other page_size obj_name
            (obtain_map sys page_size kvers prefix obj_name w def name).0 names defs,
      )

      load_object-other :
          (base : LibBase) (page_size : ℕ) (path : Text) (elf : ElfObject) (w : sys.World)
          → ProgramsPermitted fuse allowed elf
          → load_object base other page_size kvers prefix path elf w
            ≡ load_object base sys page_size kvers prefix path elf w
      unfolding load_object create_maps
      load_object-other base page_size path elf w a =
          let made = create_maps base sys page_size kvers prefix path elf.maps w in
          ground (
            arith,
            create_loop-other page_size (path_to_obj_name base path) w elf.maps.names elf.maps.defs,
            load_relocated-other base page_size path elf made.map_fds made.world a,
          )

      load_prog-other :
          (base : LibBase) (page_size : ℕ) (path : Text) (elf : ElfObject) (w : sys.World)
          → ProgramsPermitted fuse allowed elf
          → load_prog base other page_size kvers prefix path elf w
            ≡ load_prog base sys page_size kvers prefix path elf w
      unfolding load_prog
      load_prog-other base page_size path elf w a =
          ground (arith, load_object-other base page_size path elf w a)

      -- The loader never asks the kernel for a program whose type is not allowed, whatever the file
      -- holds: another kernel, which answers alike for the programs of permitted types, leads to the
      -- same end in the same state.
      pub load_file-other :
          (base : LibBase) (page_size : ℕ) (path : Text) (file : Option (List ℕ)) (w : sys.World)
          → load_file base other page_size kvers fuse prefix allowed path file w
            ≡ load_file base sys page_size kvers fuse prefix allowed path file w
      unfolding load_file
      load_file-other base page_size path none w =
          load_prog-other base page_size path (record (object_with (negsuc 0)) { is_open = false })
            w tt
      load_file-other base page_size path (some bytes) w =
          let permitted = read_object-ProgramsPermitted fuse allowed base (opened bytes) in
          elim (Answer-cases (answer_of (read_object base fuse allowed (opened bytes)))) [
            | inl (inl e) ↦ ground (arith, e)
            | inl (inr (c, e)) ↦ ground (arith, e)
            | inr (elf, e) ↦ ground (
              arith,
              e,
              load_prog-other base page_size path elf w (
                  Holds→value (ProgramsPermitted fuse allowed)
                    (read_object base fuse allowed (opened bytes)) permitted e),
            )
          ]
