-- ===== src/Ingest/Tests.antt =====
-- Files that are taken in and kept out.
use keyhole_sdk.Base.{◌≡◌, refl, String, true, false, ◌⊎◌, [], ◌∷◌, none, str_eq}
use keyhole_sdk.Base.Text.{◌<>◌, ends_with, is_within}
use keyhole_sdk.Ingest.Rules.{default_excludes}
use keyhole_sdk.Ingest.{
  PathRules, filter_of, classify, matches, first_match, with_slashes, directory_of,
}
use keyhole_sdk.Ingest.Guarded.{guarded, IsFirst, classify-guarded, classify-IsFirst}

-- Two components, and the one pattern `*.py`.
abbrev rules : PathRules
rules = record {
  fnmatch = λ s pattern. str_eq pattern "*.py";
  parts = λ s. ".git" ∷ "hook.py" ∷ [];
  name = λ s. "hook.py";
}

kept_out : classify rules (filter_of (".git" ∷ []) []) ".git\\hook.py" ≡ (false, "exclude:.git")
unfolding classify first_match matches directory_of is_within ends_with with_slashes
kept_out = refl

classify-guarded_example :
    (p : String) × (classify rules (filter_of ("*.py" ∷ []) []) ".git/hook.py"
      ≡ (false, "exclude:" <> p))
unfolding directory_of is_within ends_with
classify-guarded_example = classify-guarded rules ("*.py" ∷ []) [] ".git" ".git/hook.py" refl refl

guarded_directory : guarded "node_modules" default_excludes ≡ true
unfolding directory_of is_within ends_with
guarded_directory = refl

classify-IsFirst_example :
    let f = filter_of [] [] in
    let norm = with_slashes ".git/hook.py" in
    ((p : String) × IsFirst rules norm (f.excludes) p
      × (classify rules f ".git/hook.py" ≡ (false, "exclude:" <> p)))
    ⊎ ((first_match rules norm (f.excludes) ≡ none)
        × (((p : String) × IsFirst rules norm (f.includes) p
              × (classify rules f ".git/hook.py" ≡ (true, "include")))
            ⊎ ((first_match rules norm (f.includes) ≡ none)
                × (classify rules f ".git/hook.py" ≡ (false, "exclude:no_matching_include")))))
classify-IsFirst_example = classify-IsFirst rules (filter_of [] []) ".git/hook.py"
