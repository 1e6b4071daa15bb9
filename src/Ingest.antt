-- ===== src/Ingest.antt =====
-- ingest/filter.py: which files of a repository are taken in.
-- `fnmatch.fnmatch`, and the parts and the name of a path, which `pathlib` gives, are parameters.
pub mod Rules
pub mod Guarded
mod Tests
use keyhole_sdk.Base.{
  String, Bool, true, false, not, ◌&&◌, ◌||◌, Option, none, some, List, [], ◌∷◌, ◌++◌, elem, str_eq,
  if◌then◌else◌,
}
use keyhole_sdk.Base.Text.{◌<>◌, is_prefix, is_within, ends_with}
use keyhole_sdk.Ingest.Rules.{default_excludes, default_includes}

-- Paths and patterns, as the libraries read them.
pub record PathRules : Type 0 where
  pub fnmatch : String → String → Bool
  pub parts : String → List String
  pub name : String → String

pub record IncludeExcludeFilter : Type 0 where
  pub excludes : List String
  pub includes : List String

abbrev pub filter_of : List String → List String → IncludeExcludeFilter
filter_of extra_includes extra_excludes = record {
  excludes = default_excludes ++ extra_excludes;
  includes = default_includes ++ extra_includes;
}

-- `path.replace("\\", "/")`
unfoldable pub with_slashes : String → String
with_slashes String.[] = ""
with_slashes (String.◌∷◌ c s) =
    let rest = with_slashes s in
    if str_eq (String.◌∷◌ c String.[]) "\\" then "/" <> rest else String.◌∷◌ c rest

-- `pattern[:-3]`, where the pattern ends with "/**".
unfoldable pub directory_of : String → String
directory_of String.[] = ""
directory_of (String.◌∷◌ c s) =
    let rest = directory_of s in if str_eq (String.◌∷◌ c s) "/**" then "" else String.◌∷◌ c rest

abbrev pub is_directory : String → Bool
is_directory pattern = ends_with "/**" pattern

abbrev pub is_plain : String → Bool
is_plain pattern =
    not (is_directory pattern) && not (is_within "/" pattern) && not (is_within "*" pattern)

abbrev pub by_include : Option String → Bool × String
by_include none = (false, "exclude:no_matching_include")
by_include (some p) = (true, "include")

abbrev pub by_exclude : Option String → Option String → Bool × String
by_exclude (some p) found = (false, "exclude:" <> p)
by_exclude none found = by_include found

module _ (r : PathRules) where
  abbrev pub in_directory : String → String → Bool
  in_directory path directory =
      is_prefix (directory <> "/") path || str_eq path directory || elem directory (r.parts path)

  -- `_matches`
  unfoldable pub matches : String → String → Bool
  unfolding directory_of is_within ends_with
  matches path pattern =
      r.fnmatch (r.name path) pattern
      || r.fnmatch path pattern
      || (is_plain pattern && elem pattern (r.parts path))
      || (is_directory pattern && in_directory path (directory_of pattern))

  -- The first pattern that matches.
  unfoldable pub first_match : String → List String → Option String
  unfolding matches
  first_match path [] = none
  first_match path (p ∷ ps) =
      let rest = first_match path ps in if matches path p then some p else rest

  unfoldable pub classify : IncludeExcludeFilter → String → Bool × String
  unfolding first_match with_slashes
  classify f rel_path =
      let norm = with_slashes rel_path in
      by_exclude (first_match norm (f.excludes)) (first_match norm (f.includes))
