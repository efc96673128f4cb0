-- ===== src/Loader/Code.antt =====
-- bpfloader/UprobeStatsBpfLoad.cpp, `loadCodeSections`.
pub mod Laws
use platform_packages_module.Prelude.{
  ℕ, List, [], ◌∷◌, ◌++◌, Option, none, some, Bool, true, false, not, ◌==◌, if◌then◌else◌, Text,
  take, codes, ℤ, pos, negsuc,
}
use platform_packages_module.LibBase.{LibBase}
use platform_packages_module.Loader.Bpffs.{
  Answer, ok, errno, minus, ProgDef, ProgRequest, Bpffs, in_range,
}
use platform_packages_module.Loader.Names.{strip_from, path_to_obj_name}
use platform_packages_module.Loader.Relo.{CodeSection}

-- How one program ends: the loop goes on, or `loadCodeSections` returns.
pub data Step : Type 0 where
  go_on : Step
  return : ℤ → Step

module _ (sys : Bpffs) (kvers : ℕ) (prefix obj_name license : Text) where
  -- `progPinLoc`, without the part of the name from the last dollar sign on.
  unfoldable pub prog_pin_loc : CodeSection → Text
  prog_pin_loc c =
      codes "/sys/fs/bpf/"
      ++ (prefix ++ (codes "prog_" ++ (obj_name ++ (codes "_" ++ strip_from 36 c.name))))

  -- What is asked for with BPF_PROG_LOAD; `strlcpy` keeps 15 bytes of the name.
  unfoldable pub prog_request : CodeSection → ProgRequest
  prog_request c = record {
    prog_type = c.type;
    kern_version = kvers;
    license = license;
    insns = c.insns;
    prog_name = take 15 c.name;
  }

  -- The pinning of a program that was loaded, readable for its owner and group (0440).
  unfoldable pub pin_prog : sys.World → ProgDef → ℕ → Text → sys.World × Step
  pin_prog w def fd path =
      let (w1, pinned) = sys.pin w fd path in
      let (w2, changed) = sys.chmod w1 path 288 in
      let (w3, owned) = sys.chown w2 path def.uid def.gid in
      elim pinned [
        | some err ↦ (w1, return (minus err))
        | none ↦ elim changed [
          | some err ↦ (w2, return (minus err))
          | none ↦ (w3, elim owned [ some err ↦ return (minus err) | none ↦ go_on ])
        ]
      ]

  -- A program within its range of kernel versions: retrieved if it is pinned, else loaded, where
  -- an optional one may fail. The descriptor that is returned for a failure is -1.
  unfoldable pub obtain_prog : sys.World → CodeSection → ProgDef → sys.World × Step
  obtain_prog w c def =
      let path = prog_pin_loc c in
      let (w1, retrieved) = sys.retrieve_prog w path in
      let (w2, loaded) = sys.load_prog w (prog_request c) in
      if sys.exists w path
      then (w1, elim retrieved [ ok fd ↦ go_on | errno err ↦ return (negsuc 0) ])
      else elim loaded [
        | ok fd ↦ pin_prog w2 def fd path
        | errno err ↦ (w2, if def.optional then go_on else return (negsuc 0))
      ]

  -- One turn of the loop.
  unfoldable pub load_section : sys.World → CodeSection → sys.World × Step
  load_section w c = elim c.prog_def [
    | none ↦ (w, return (negsuc 21))
    | some def ↦
        if not (in_range kvers def.min_kver def.max_kver) then (w, go_on) else obtain_prog w c def
  ]

  -- The loop over the sections.
  unfoldable pub load_sections : sys.World → List CodeSection → sys.World × ℤ
  load_sections w [] = (w, pos 0)
  load_sections w (c ∷ cs) =
      let (w1, step) = load_section w c in
      let rest = load_sections w1 cs in elim step [ return ret ↦ (w1, ret) | go_on ↦ rest ]

-- `loadCodeSections`
unfoldable pub load_code_sections :
    (base : LibBase) (sys : Bpffs) (kvers : ℕ) (prefix elf_path license : Text)
    → List CodeSection
    → sys.World
    → sys.World × ℤ
load_code_sections base sys kvers prefix elf_path license cs w =
    if kvers == 0
    then (w, negsuc 21)
    else load_sections sys kvers prefix (path_to_obj_name base elf_path) license w cs
