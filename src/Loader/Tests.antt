-- ===== src/Loader/Tests.antt =====
-- The loader's theorems at concrete inputs, with a kernel that keeps the pinned paths.
use platform_packages_module.Prelude.{
  inl, inr, ℕ, ◌+◌, List, [], ◌∷◌, ◌++◌, ◌≡◌, ◌↔◌, none, some, true, false, ◌==◌, if◌then◌else◌,
  Text, codes, text_eq, any, refl, pos, negsuc, ◌⊎◌, ◌≢◌, length, get_or,
}
use platform_packages_module.LibBase.Sample.{base}
use platform_packages_module.Loader.Bpffs.{ok, errno, MapDef, ProgDef, MapShape, Insn, Bpffs}
use platform_packages_module.Loader.Stream.{Answer, value}
use platform_packages_module.Loader.Maps.{
  create_loop, returned, obtain_map, accept_map, pin_map, effective_type, effective_entries,
  map_matches_expectations, requested, map_pin_loc,
}
use platform_packages_module.Loader.Maps.Laws.{Aligned, create_loop-Aligned}
use platform_packages_module.Loader.Relo.{
  CodeSection, relo_sections, relo_section, relo_symbol, apply_relo,
}
use platform_packages_module.Loader.Relo.Laws.{SectionsKeep, relo_sections-SectionsKeep}
use platform_packages_module.Loader.Code.{load_sections}
use platform_packages_module.Loader.Code.Laws.{Turns, load_sections_iff}
use platform_packages_module.Loader.Objects.{Loaded, load_loop, create_sys_fs_bpf_sub_dir}
use platform_packages_module.Loader.Objects.Laws.{load_loop-Tolerable, sub_dir_umask}

-- The pinned paths, and the maps by their descriptors.
pub record Kernel : Type 0 where
  pub paths : List Text
  pub maps : List MapShape

abbrev pub sys : Bpffs
sys = record {
  World = Kernel;
  exists = λ w path. any (λ p. text_eq p path) w.paths;
  retrieve_map = λ w path. (w, ok 0);
  retrieve_prog = λ w path. (w, ok 9);
  create_map = λ w shape name. (record w { maps = w.maps ++ (shape ∷ []) }, ok (length w.maps));
  load_prog = λ w request. (w, if request.prog_type == 2 then ok 7 else errno 22);
  shape_of = λ w fd.
      get_or w.maps fd
        (record { type = 0; key_size = 0; value_size = 0; max_entries = 0; map_flags = 0 });
  pin = λ w fd path. (record w { paths = path ∷ w.paths }, none);
  chmod = λ w path mode. (w, none);
  chown = λ w path uid gid. (w, none);
}

abbrev pub boot : Kernel
boot = record { paths = []; maps = [] }

abbrev ring_def : MapDef
ring_def = record {
  type = 27;
  key_size = 0;
  value_size = 0;
  max_entries = 4096;
  map_flags = 0;
  uid = 1093;
  gid = 1093;
  mode = 384;
  min_kver = 0;
  max_kver = 4294967295;
  shared = false;
  zero_field = 0;
}

-- Only for kernels before 5.0.
abbrev old_def : MapDef
old_def = record ring_def { max_kver = 83886080 }

abbrev prog_def : ProgDef
prog_def = record { uid = 1093; gid = 1093; min_kver = 0; max_kver = 4294967295; optional = false }

-- `BPF_LD | BPF_IMM | BPF_DW` of register 1, and its second half.
abbrev load_insn : Insn
load_insn = record { code = 24; dst_reg = 1; src_reg = 0; off = 0; imm = pos 0 }

abbrev second_half : Insn
second_half = record { code = 0; dst_reg = 0; src_reg = 0; off = 0; imm = pos 0 }

abbrev section : CodeSection
section = record {
  type = 2;
  name = codes "uprobe_call_detail$4_14";
  insns = load_insn ∷ second_half ∷ [];
  rel_data = (0, 3) ∷ [];
  prog_def = some prog_def;
}

-- An optional program of a type that the kernel refuses.
abbrev refused_section : CodeSection
refused_section = record section { type = 5; prog_def = some (record prog_def { optional = true }) }

-- Kernel 6.1
abbrev pub kvers : ℕ
kvers = 100728832

abbrev map_names : List Text
map_names = codes "call_detail_buf" ∷ codes "old_buf" ∷ []

created :
    (create_loop sys 4096 kvers
      (codes "uprobestats/")
      (codes "Generic")
      boot
      map_names
      (ring_def ∷ old_def ∷ [])).ended
    ≡ returned (pos 0)
unfolding create_loop obtain_map accept_map pin_map effective_type effective_entries
    map_matches_expectations requested map_pin_loc
created = refl

create_loop-Aligned_example :
    let out =
      create_loop sys 4096 kvers
        (codes "uprobestats/")
        (codes "Generic")
        boot
        map_names
        (ring_def ∷ old_def ∷ []) in
    Aligned sys 4096 kvers
      (codes "uprobestats/")
      (codes "Generic")
      boot
      map_names
      (ring_def ∷ old_def ∷ [])
      out.map_fds
      out.world
create_loop-Aligned_example =
    create_loop-Aligned sys 4096 kvers (codes "uprobestats/") (codes "Generic") boot map_names
      (ring_def ∷ old_def ∷ []) created

-- The symbol of the relocation is the first map.
abbrev symbols : ℕ → Answer Text
symbols index = value (codes "call_detail_buf")

abbrev relocated : CodeSection
relocated = record section {
  insns = record load_insn { imm = pos 5; src_reg = 1 } ∷ second_half ∷ [];
}

relocates :
    relo_sections symbols map_names (some 5 ∷ none ∷ []) (section ∷ []) ≡ some (relocated ∷ [])
unfolding relo_sections relo_section relo_symbol apply_relo
relocates = refl

relo_sections-SectionsKeep_example :
    SectionsKeep (some 5 ∷ none ∷ []) (section ∷ []) (relocated ∷ [])
relo_sections-SectionsKeep_example =
    relo_sections-SectionsKeep symbols map_names (some 5 ∷ none ∷ []) (section ∷ []) relocates

load_sections_iff_example :
    (load_sections sys kvers
        (codes "uprobestats/")
        (codes "Generic")
        (codes "GPL")
        boot
        (refused_section ∷ section ∷ [])
      ≡ (
        record boot {
          paths = codes "/sys/fs/bpf/uprobestats/prog_Generic_uprobe_call_detail" ∷ [];
        },
        pos 0,
      ))
    ↔ Turns sys kvers
        (codes "uprobestats/")
        (codes "Generic")
        (codes "GPL")
        boot
        (refused_section ∷ section ∷ [])
        (record boot {
          paths = codes "/sys/fs/bpf/uprobestats/prog_Generic_uprobe_call_detail" ∷ [];
        })
load_sections_iff_example =
    load_sections_iff sys kvers (codes "uprobestats/") (codes "Generic") (codes "GPL") boot
      (record boot { paths = codes "/sys/fs/bpf/uprobestats/prog_Generic_uprobe_call_detail" ∷ [] })
      (refused_section ∷ section ∷ [])

-- An optional object that fails, a file that is not an object, and an object that loads.
abbrev load_one : Text → ℕ → Loaded ℕ
load_one name w =
    if text_eq name (codes "A.o")
    then record { world = w; ended = returned (negsuc 0); critical = false }
    else record { world = w + 1; ended = returned (pos 0); critical = true }

load_loop-Tolerable_example :
    load_loop base load_one 0 (pos 0) (codes "A.o" ∷ codes "README" ∷ codes "B.o" ∷ [])
    ≡ record { world = 1; ended = returned (pos 0) }
load_loop-Tolerable_example =
    load_loop-Tolerable base load_one 0 1 (codes "A.o" ∷ codes "README" ∷ codes "B.o" ∷ []) (
      inr (refl, (negsuc 0, refl, inr refl), inl (refl, inr (refl, (pos 0, refl, inl refl), refl))))

sub_dir_umask_example :
    let out = create_sys_fs_bpf_sub_dir (λ umask path. some 13) 18 (codes "uprobestats/") in
    ((out.ret ≡ pos 0) × (out.umask ≡ 18)) ⊎ ((out.ret ≢ pos 0) × (out.umask ≡ 0))
sub_dir_umask_example = sub_dir_umask (λ umask path. some 13) 18 117 (codes "probestats/")
