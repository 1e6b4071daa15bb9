-- ===== src/Capability/Materializer/Lawful.antt =====
-- capability/materializer.py: what may be written, and that a second time writes nothing.
use Prim.Native.Char.{Char}
use keyhole_sdk.Base.{
  ◌≡◌, refl, ap, ◌∙◌, String, Bool, true, false, ◌&&◌, ◌⊎◌, inl, inr, Option, none, some, List, [],
  ◌∷◌, truthy, or_default, str_eq, arith, Bool-cases,
}
use keyhole_sdk.Base.Text.{◌<>◌, strip, is_within}
use keyhole_sdk.Base.Texts.{join}
use keyhole_sdk.Base.Within.{is_within-left, is_within-right, is_within_self}
use keyhole_sdk.Capability.Outcomes.{ResolvedDependency, ResolutionOutcome}
use keyhole_sdk.Capability.Materializer.{
  MaterializationMode, advisory, write, RepoPosture, native, foreign, ingestion_backed,
  MaterializationResult, RepoFiles, optional_line, dependency_block, new_content, without_newlines,
  is_present, write_native_dependency, emit_advisory_artifact, for_dependency,
  materialize_resolution,
}

join-first :
    (sep t s : String) (ss : List String)
    → is_within t s ≡ true
    → is_within t (join sep (s ∷ ss)) ≡ true
join-first sep t s [] h = h
join-first sep t s (u ∷ us) h = is_within-left t s (sep <> join sep (u ∷ us)) h

join-second :
    (sep t s u : String) (us : List String)
    → is_within t u ≡ true
    → is_within t (join sep (s ∷ u ∷ us)) ≡ true
join-second sep t s u us h =
    is_within-right t s (sep <> join sep (u ∷ us))
      (is_within-right t sep (join sep (u ∷ us)) (join-first sep t u us h))

both : (a b : Bool) → a ≡ true → b ≡ true → (a && b) ≡ true
both a b h k = ground arith

-- The block of an entry has its capability and its provider.
dependency_block-present : (r : ResolvedDependency) → is_present r (dependency_block r) ≡ true
dependency_block-present r =
    let rest = optional_line "  version: " (r.version) (optional_line "  digest: " (r.digest) []) in
    let first = "- capability: " <> r.capability in
    let second = "  provider: " <> r.provider in
    let lines = join "\n" (first ∷ second ∷ rest) in
    both _ _
      (is_within-left (r.capability) lines "\n" (
        join-first "\n" (r.capability) first (second ∷ rest) (
          is_within-right (r.capability) "- capability: " (r.capability)
            (is_within_self (r.capability)))))
      (is_within-left (r.provider) lines "\n" (
        join-second "\n" (r.provider) first second rest
          (is_within-right (r.provider) "  provider: " (r.provider) (is_within_self (r.provider)))))

behind-present :
    (r : ResolvedDependency) (x y : String) → is_present r y ≡ true → is_present r (x <> y) ≡ true
behind-present r x y h =
    both _ _ (is_within-right (r.capability) x y (left_of _ _ h))
      (is_within-right (r.provider) x y (right_of _ _ h))
  where
    left_of : (a b : Bool) → (a && b) ≡ true → a ≡ true
    left_of a b k = ground arith

    right_of : (a b : Bool) → (a && b) ≡ true → b ≡ true
    right_of a b k = ground arith

new_content-present :
    (r : ResolvedDependency) (existing : String) → is_present r (new_content r existing) ≡ true
unfolding new_content
new_content-present r existing = elim (Bool-cases (truthy (strip existing))) [
  | inl e ↦ simp e (
      behind-present r (without_newlines existing) ("\n" <> dependency_block r)
        (behind-present r "\n" (dependency_block r) (dependency_block-present r)))
  | inr e ↦ simp e (dependency_block-present r)
]

-- The dependencies are as they were and nothing counts as written; or a resolved dependency, which was
-- not there, is written to a native repository on request, and is there.
abbrev pub IsLawful :
    ResolutionOutcome
    → MaterializationMode
    → RepoPosture
    → RepoFiles
    → RepoFiles × MaterializationResult
    → Type 0
IsLawful outcome mode posture files end =
    (((end.0).dependencies ≡ files.dependencies) × ((end.1).is_write ≡ false))
    ⊎ ((r : ResolvedDependency) × (outcome.resolved ≡ some r)
        × (str_eq (outcome.status) "resolved" ≡ true)
        × (mode ≡ write)
        × (posture ≡ native)
        × ((end.1).is_write ≡ true)
        × (is_present r (or_default (files.dependencies) "") ≡ false)
        × (is_present r (or_default ((end.0).dependencies) "") ≡ true))

present_step :
    (repo_path : String) (r : ResolvedDependency) (files : RepoFiles)
    → is_present r (or_default (files.dependencies) "") ≡ true
    → ((write_native_dependency repo_path r files).0 ≡ files)
      × (((write_native_dependency repo_path r files).1).is_write ≡ false)
unfolding write_native_dependency
present_step repo_path r files e = (simp e refl, simp e refl)

absent_step :
    (repo_path : String) (r : ResolvedDependency) (files : RepoFiles)
    → is_present r (or_default (files.dependencies) "") ≡ false
    → (((write_native_dependency repo_path r files).0).dependencies
        ≡ some (new_content r (or_default (files.dependencies) "")))
      × (((write_native_dependency repo_path r files).1).is_write ≡ true)
unfolding write_native_dependency
absent_step repo_path r files e = (simp e refl, simp e refl)

module _ (is_alnum : Char → Bool) (repo_path state_dir : String) (outcome : ResolutionOutcome) where
  native-IsLawful :
      (r : ResolvedDependency) (files : RepoFiles)
      → outcome.resolved ≡ some r
      → str_eq (outcome.status) "resolved" ≡ true
      → IsLawful outcome write native files (write_native_dependency repo_path r files)
  native-IsLawful r files h k =
      elim (Bool-cases (is_present r (or_default (files.dependencies) ""))) [
        | inl e ↦
            let (same, quiet) = present_step repo_path r files e in
            inl (ap (λ f. f.dependencies) same, quiet)
        | inr e ↦
            let (changed, loud) = absent_step repo_path r files e in
            inr (
              r,
              h,
              k,
              refl,
              refl,
              loud,
              e,
              ap (λ o. is_present r (or_default o "")) changed
                  ∙ new_content-present r (or_default (files.dependencies) ""),
            )
      ]

  for_dependency-IsLawful :
      (b : Bool) (o : Option ResolvedDependency) (mode : MaterializationMode)
      (posture : RepoPosture) (files : RepoFiles)
      → str_eq (outcome.status) "resolved" ≡ b
      → outcome.resolved ≡ o
      → IsLawful outcome mode posture files
          (for_dependency is_alnum repo_path state_dir outcome b o mode posture files)
  unfolding emit_advisory_artifact
  for_dependency-IsLawful true (some r) advisory posture files k h = inl (refl, refl)
  for_dependency-IsLawful true (some r) write native files k h = native-IsLawful r files h k
  for_dependency-IsLawful true (some r) write foreign files k h = inl (refl, refl)
  for_dependency-IsLawful true (some r) write ingestion_backed files k h = inl (refl, refl)
  for_dependency-IsLawful true none mode posture files k h = inl (refl, refl)
  for_dependency-IsLawful false o mode posture files k h = inl (refl, refl)

  -- A resolution changes the repository's dependencies, and counts as a write, only if it is resolved, the
  -- mode is to write, the repository is native, and its capability or its provider did not stand in the
  -- file; both then stand in it.
  pub materialize_resolution-IsLawful :
      (mode : MaterializationMode) (posture : RepoPosture) (files : RepoFiles)
      → IsLawful outcome mode posture files
          (materialize_resolution is_alnum repo_path state_dir outcome mode posture files)
  unfolding materialize_resolution
  materialize_resolution-IsLawful mode posture files =
      for_dependency-IsLawful (str_eq (outcome.status) "resolved") (outcome.resolved) mode posture
        files refl refl

  -- The second result leaves the dependencies of the first, and is no write.
  abbrev pub IsQuiet :
      RepoFiles × MaterializationResult → RepoFiles × MaterializationResult → Type 0
  IsQuiet first second =
      ((second.0).dependencies ≡ (first.0).dependencies) × ((second.1).is_write ≡ false)

  native-IsQuiet :
      (r : ResolvedDependency) (files : RepoFiles)
      → let first = write_native_dependency repo_path r files in
        IsQuiet first (write_native_dependency repo_path r (first.0))
  native-IsQuiet r files =
      let first = write_native_dependency repo_path r files in
      let there : is_present r (or_default ((first.0).dependencies) "") ≡ true =
        elim (Bool-cases (is_present r (or_default (files.dependencies) ""))) [
          | inl e ↦
              ap (λ f. is_present r (or_default (f.dependencies) ""))
                ((present_step repo_path r files e).0)
              ∙ e
          | inr e ↦
              ap (λ o. is_present r (or_default o "")) ((absent_step repo_path r files e).0)
              ∙ new_content-present r (or_default (files.dependencies) "")
        ] in
      let (same, quiet) = present_step repo_path r (first.0) there in
      (ap (λ f. f.dependencies) same, quiet)

  for_dependency-IsQuiet :
      (b : Bool) (o : Option ResolvedDependency) (mode : MaterializationMode)
      (posture : RepoPosture) (files : RepoFiles)
      → let run = for_dependency is_alnum repo_path state_dir outcome b o mode posture in
        IsQuiet (run files) (run ((run files).0))
  unfolding emit_advisory_artifact
  for_dependency-IsQuiet true (some r) advisory posture files = (refl, refl)
  for_dependency-IsQuiet true (some r) write native files = native-IsQuiet r files
  for_dependency-IsQuiet true (some r) write foreign files = (refl, refl)
  for_dependency-IsQuiet true (some r) write ingestion_backed files = (refl, refl)
  for_dependency-IsQuiet true none mode posture files = (refl, refl)
  for_dependency-IsQuiet false o mode posture files = (refl, refl)

  -- A second materialization of a resolution leaves the dependencies as the first left them, and is no
  -- write.
  pub materialize_resolution-IsQuiet :
      (mode : MaterializationMode) (posture : RepoPosture) (files : RepoFiles)
      → let run = materialize_resolution is_alnum repo_path state_dir outcome mode posture in
        IsQuiet (run files) (run ((run files).0))
  unfolding materialize_resolution
  materialize_resolution-IsQuiet mode posture files =
      for_dependency-IsQuiet (str_eq (outcome.status) "resolved") (outcome.resolved) mode posture
        files
