-- ===== src/Loader/Names.antt =====
-- bpfloader/UprobeStatsBpfLoad.cpp: names of objects, and the program types of sections.
pub mod Laws
use platform_packages_module.Prelude.{
  ℕ, List, [], ◌∷◌, ◌++◌, ◌≡◌, Option, none, some, Bool, true, false, ◌==◌, if◌then◌else◌, Text,
  codes, refl, all, All, append_assoc, arith, ◌↔◌, ◌≢◌,
}
use platform_packages_module.LibBase.{LibBase}

-- `s.substr(0, s.find_last_of(c))`: without an occurrence it is all of `s`. The helper gives the
-- part before the last occurrence, if there is one.
unfoldable pub before_last : ℕ → Text → Option Text
before_last c [] = none
before_last c (x ∷ s) = elim (before_last c s) [
  | some t ↦ some (x ∷ t)
  | none ↦ if x == c then some [] else none
]

unfoldable pub strip_from : ℕ → Text → Text
unfolding before_last
strip_from c s = elim (before_last c s) [ none ↦ s | some t ↦ t ]

-- `components.back()`; `Split` never gives an empty list.
abbrev pub last : List Text → Text
last [] = []
last (x ∷ []) = x
last (x ∷ y ∷ ys) = last (y ∷ ys)

-- `pathToObjName`
unfoldable pub path_to_obj_name : LibBase → Text → Text
path_to_obj_name base path = strip_from 64 (strip_from 46 (last (base.split path (codes "/"))))

-- The program types that the loader names, as the kernel numbers them.
abbrev pub prog_type_unspec : ℕ
prog_type_unspec = 0

abbrev pub prog_type_socket_filter : ℕ
prog_type_socket_filter = 1

abbrev pub prog_type_kprobe : ℕ
prog_type_kprobe = 2

abbrev pub prog_type_tracepoint : ℕ
prog_type_tracepoint = 5

abbrev pub prog_type_perf_event : ℕ
prog_type_perf_event = 7

-- `sectionNameTypes`
abbrev pub section_name_types : List (Text × ℕ)
section_name_types =
    (codes "kprobe/", prog_type_kprobe)
    ∷ (codes "kretprobe/", prog_type_kprobe)
    ∷ (codes "perf_event/", prog_type_perf_event)
    ∷ (codes "skfilter/", prog_type_socket_filter)
    ∷ (codes "tracepoint/", prog_type_tracepoint)
    ∷ (codes "uprobe/", prog_type_kprobe)
    ∷ (codes "uretprobe/", prog_type_kprobe)
    ∷ []

-- The loop of `getSectionType` over the table; `fuse` is what `getFuseProgType` returns.
unfoldable pub section_type_in : LibBase → (fuse : ℕ) → List (Text × ℕ) → Text → ℕ
section_type_in base fuse [] name =
    if base.starts_with name (codes "fuse/") then fuse else prog_type_unspec
section_type_in base fuse ((prefix, type) ∷ rest) name =
    if base.starts_with name prefix then type else section_type_in base fuse rest name

-- `getSectionType`
unfoldable pub get_section_type : LibBase → (fuse : ℕ) → Text → ℕ
get_section_type base fuse name = section_type_in base fuse section_name_types name

-- The loop of `IsAllowed`.
unfoldable pub allowed_in : (fuse type : ℕ) → List ℕ → Bool
allowed_in fuse type [] = false
allowed_in fuse type (a ∷ rest) =
    if a == prog_type_unspec
    then (if type == fuse then true else allowed_in fuse type rest)
    else if type == a
    then true
    else allowed_in fuse type rest

-- `IsAllowed`; `none` is the null pointer.
unfoldable pub is_allowed_type : (fuse type : ℕ) → Option (List ℕ) → Bool
is_allowed_type fuse type none = true
is_allowed_type fuse type (some allowed) = allowed_in fuse type allowed
