-- ===== src/Ingest/Guarded.antt =====
-- ingest/filter.py: what the default exclusions keep out, whatever a builder supplies.
use keyhole_sdk.Base.{
  ◌≡◌, refl, sym, ap, ◌∙◌, String, Bool, true, false, ◌&&◌, ◌||◌, ◌⊎◌, inl, inr, none, some, List,
  [], ◌∷◌, ◌++◌, elem, str_eq, arith, Bool-cases, eq_iff,
}
use keyhole_sdk.Base.Text.{◌<>◌}
use keyhole_sdk.Ingest.Rules.{default_excludes}
use keyhole_sdk.Ingest.{
  PathRules, IncludeExcludeFilter, filter_of, with_slashes, directory_of, is_directory, is_plain,
  matches, first_match, by_include, by_exclude, classify,
}

-- The pattern keeps out every path that has the component.
abbrev pub guards : String → String → Bool
guards component pattern =
    (is_plain pattern && str_eq component pattern)
    || (is_directory pattern && str_eq component (directory_of pattern))

abbrev pub guarded : String → List String → Bool
guarded component [] = false
guarded component (p ∷ ps) = guards component p || guarded component ps

guarded-append :
    (component : String) (ps qs : List String)
    → guarded component ps ≡ true
    → guarded component (ps ++ qs) ≡ true
guarded-append component [] qs h = ground arith
guarded-append component (p ∷ ps) qs h = ground (arith, guarded-append component ps qs)

module _ (r : PathRules) where
  matches-guards :
      (path component pattern : String)
      → guards component pattern ≡ true
      → elem component (r.parts path) ≡ true
      → matches r path pattern ≡ true
  unfolding matches
  matches-guards path component pattern g m =
      elim (Bool-cases (is_plain pattern && str_eq component pattern)) [
        | inl e ↦
            let same : component ≡ pattern = ground (arith, eq_iff component pattern) in
            let there : elem pattern (r.parts path) ≡ true =
              ap (λ s. elem s (r.parts path)) (sym same) ∙ m in
            ground (arith, there)
        | inr e ↦
            let same : component ≡ directory_of pattern =
              ground (arith, eq_iff component (directory_of pattern)) in
            let there : elem (directory_of pattern) (r.parts path) ≡ true =
              ap (λ s. elem s (r.parts path)) (sym same) ∙ m in
            ground (arith, there)
      ]

  first_match-guarded :
      (path component : String) (ps : List String)
      → guarded component ps ≡ true
      → elem component (r.parts path) ≡ true
      → (p : String) × (first_match r path ps ≡ some p)
  unfolding first_match
  first_match-guarded path component [] g m = ground arith
  first_match-guarded path component (p ∷ ps) g m = elim (Bool-cases (matches r path p)) [
    | inl e ↦ (p, simp e refl)
    | inr e ↦
        let (q, found) =
          first_match-guarded path component ps (ground (arith, matches-guards path component p))
            m in
        (q, simp (e, found) refl)
  ]

  -- A path that has a component which a default exclusion names, by itself or as a directory, is never
  -- taken in, whatever rules a builder adds and however the patterns match.
  pub classify-guarded :
      (extra_includes extra_excludes : List String) (component rel_path : String)
      → guarded component default_excludes ≡ true
      → elem component (r.parts (with_slashes rel_path)) ≡ true
      → (p : String) × (classify r (filter_of extra_includes extra_excludes) rel_path
          ≡ (false, "exclude:" <> p))
  unfolding classify
  classify-guarded extra_includes extra_excludes component rel_path g m =
      let f = filter_of extra_includes extra_excludes in
      let norm = with_slashes rel_path in
      let (p, found) =
        first_match-guarded norm component (f.excludes)
          (guarded-append component default_excludes extra_excludes g) m in
      (p, ap (λ o. by_exclude o (first_match r norm (f.includes))) found)

  -- The pattern is the first of the list that matches the path.
  abbrev pub IsFirst : String → List String → String → Type 0
  IsFirst path ps p =
      (before : List String) × (after : List String) × (ps ≡ before ++ p ∷ after)
      × (first_match r path before ≡ none)
      × (matches r path p ≡ true)

  first_match-IsFirst :
      (path : String) (ps : List String)
      → (first_match r path ps ≡ none)
        ⊎ ((p : String) × (first_match r path ps ≡ some p) × IsFirst path ps p)
  unfolding first_match
  first_match-IsFirst path [] = inl refl
  first_match-IsFirst path (q ∷ ps) = elim (Bool-cases (matches r path q)) [
    | inl e ↦ inr (q, simp e refl, ([], ps, refl, refl, e))
    | inr e ↦ elim (first_match-IsFirst path ps) [
      | inl n ↦ inl (simp (e, n) refl)
      | inr (p, f, (before, after, s, n, h)) ↦
          inr (p, simp (e, f) refl, (q ∷ before, after, ap (λ l. q ∷ l) s, simp (e, n) refl, h))
    ]
  ]

  -- A file is kept out with the first exclusion that matches it; else it is taken in where an
  -- inclusion matches it, and kept out with no rule where none does.
  pub classify-IsFirst :
      (f : IncludeExcludeFilter) (rel_path : String)
      → let norm = with_slashes rel_path in
        ((p : String) × IsFirst norm (f.excludes) p
          × (classify r f rel_path ≡ (false, "exclude:" <> p)))
        ⊎ ((first_match r norm (f.excludes) ≡ none)
            × (((p : String) × IsFirst norm (f.includes) p
                  × (classify r f rel_path ≡ (true, "include")))
                ⊎ ((first_match r norm (f.includes) ≡ none)
                    × (classify r f rel_path ≡ (false, "exclude:no_matching_include")))))
  unfolding classify
  classify-IsFirst f rel_path =
      let norm = with_slashes rel_path in
      elim (first_match-IsFirst norm (f.excludes)) [
        | inr (p, e, first) ↦
            inl (p, first, ap (λ o. by_exclude o (first_match r norm (f.includes))) e)
        | inl n ↦ inr (
          n,
          elim (first_match-IsFirst norm (f.includes)) [
            | inr (p, e, first) ↦ inl (
              p,
              first,
              ap (λ o. by_exclude o (first_match r norm (f.includes))) n ∙ ap by_include e,
            )
            | inl k ↦
                inr
                  (k, ap (λ o. by_exclude o (first_match r norm (f.includes))) n ∙ ap by_include k)
          ],
        )
      ]
