-- ===== src/LibBase/Sample.antt =====
-- String functions that meet the laws, for the tests: `split` separates at one byte.
use platform_packages_module.Prelude.{
  ℕ, ◌||◌, text_eq, Bool, List, [], ◌∷◌, ◌++◌, ◌==◌, if◌then◌else◌, Text, has_prefix,
  has_prefix_iff, get_or,
}
use platform_packages_module.LibBase.{LibBase}

abbrev split_at : ℕ → Text → Text → List Text
split_at sep current [] = current ∷ []
split_at sep current (c ∷ cs) =
    let cut = current ∷ split_at sep [] cs in
    let more = split_at sep (current ++ (c ∷ [])) cs in if c == sep then cut else more

abbrev has_suffix : Text → Text → Bool
has_suffix [] part = text_eq [] part
has_suffix (c ∷ s) part = text_eq (c ∷ s) part || has_suffix s part

abbrev pub base : LibBase
base = record {
  split = λ s sep. split_at (get_or sep 0 0) [] s;
  starts_with = has_prefix;
  ends_with = has_suffix;
  starts_with_iff = has_prefix_iff;
}
