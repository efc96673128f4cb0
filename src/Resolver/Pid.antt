-- ===== src/Resolver/Pid.antt =====
-- Process.cpp: the id of a process by its name. `/proc` is the list of its entries, each with its
-- name and the contents of its `cmdline` if that can be read.
use platform_packages_module.Prelude.{
  List, [], ◌∷◌, ◌++◌, Option, none, some, Bool, true, false, ◌||◌, if◌then◌else◌, Text, text_eq,
  has_prefix, ℤ, negsuc, ◌≡◌, All,
}

pub record ProcEntry : Type 0 where
  pub name : Text
  pub cmdline : Option Text

-- The command line is the name, or starts with it and a NUL.
unfoldable pub names_process : Text → ProcEntry → Bool
names_process process_name e = elim e.cmdline [
  | none ↦ false
  | some cmdline ↦ text_eq cmdline process_name || has_prefix cmdline (process_name ++ (0 ∷ []))
]

-- `getPid`, with `ParseInt` of android-base as a parameter; -1 is a failure.
unfoldable pub get_pid : (parse_int : Text → Option ℤ) → List ProcEntry → Text → ℤ
get_pid parse_int [] process_name = negsuc 0
get_pid parse_int (e ∷ es) process_name =
    if names_process process_name e
    then elim (parse_int e.name) [ none ↦ negsuc 0 | some pid ↦ pid ]
    else get_pid parse_int es process_name

-- The id is that of the first entry whose command line names the process: the entries before it do
-- not, and its name is a number.
pub get_pid_first :
    (parse_int : Text → Option ℤ) (before : List ProcEntry) (e : ProcEntry) (after : List ProcEntry)
    (process_name : Text) (pid : ℤ)
    → All (λ b. names_process process_name b ≡ false) before
    → names_process process_name e ≡ true
    → parse_int e.name ≡ some pid
    → get_pid parse_int (before ++ (e ∷ after)) process_name ≡ pid
unfolding get_pid
get_pid_first parse_int [] e after process_name pid h n p = rw (n, p)
get_pid_first parse_int (b ∷ before) e after process_name pid h n p =
    rw (h.0) (get_pid_first parse_int before e after process_name pid h.1 n p)
