-- ===== src/Capability/Materializer.antt =====
-- capability/materializer.py: what a resolution writes.
-- The files are the repository's dependencies.yaml, absent or a text, and the artifacts by their paths.
-- Paths are joined by "/"; whether a character is a letter or a digit is a parameter. An error of a
-- write is outside the model.
pub mod Lawful
use Prim.Native.Char.{Char}
use keyhole_sdk.Base.{
  String, Bool, true, false, not, ◌&&◌, ◌||◌, Option, none, some, List, [], ◌∷◌, truthy, or_str,
  or_default, str_eq, if◌then◌else◌,
}
use keyhole_sdk.Base.Dict.{insert}
use keyhole_sdk.Base.Json.{Json, bool, str, Fields, end, field, put_field}
use keyhole_sdk.Base.Text.{◌<>◌, strip, is_within}
use keyhole_sdk.Base.Texts.{join}
use keyhole_sdk.Capability.Outcomes.{ResolvedDependency, ResolutionOutcome}
use keyhole_sdk.Runs.Record.{safe_chars}

pub data MaterializationMode : Type 0 where
  advisory write : MaterializationMode

pub data RepoPosture : Type 0 where
  native foreign ingestion_backed : RepoPosture

abbrev pub posture_value : RepoPosture → String
posture_value native = "native"
posture_value foreign = "foreign"
posture_value ingestion_backed = "ingestion_backed"

pub record MaterializationResult : Type 0 where
  pub success : Bool
  pub target : String
  pub diff_summary : String
  pub is_write : Bool
  pub error_class : String
  pub reason : String
  pub repair_guidance : List String

pub record RepoFiles : Type 0 where
  pub dependencies : Option String
  pub artifacts : List (String × Fields)

abbrev pub failure : String → String → List String → MaterializationResult
failure error_class reason repair_guidance = record {
  success = false;
  target = "";
  diff_summary = "";
  is_write = false;
  error_class = error_class;
  reason = reason;
  repair_guidance = repair_guidance;
}

abbrev pub done : String → String → Bool → MaterializationResult
done target diff_summary is_write = record {
  success = true;
  target = target;
  diff_summary = diff_summary;
  is_write = is_write;
  error_class = "";
  reason = "";
  repair_guidance = [];
}

abbrev pub with_entry : String → String → Fields → Fields
with_entry k s rest = if truthy s then field k (str s) rest else rest

-- `ResolvedDependency.to_dependency_entry`
abbrev pub dependency_entry : ResolvedDependency → Fields
dependency_entry r = field "capability" (str (r.capability)) (
    field "provider" (str (r.provider))
      (with_entry "version" (r.version) (with_entry "digest" (r.digest) end)))

abbrev pub optional_line : String → String → List String → List String
optional_line label s rest = if truthy s then (label <> s) ∷ rest else rest

-- The lines of an entry, each ended by a newline.
abbrev pub dependency_block : ResolvedDependency → String
dependency_block r =
    join "\n" (
      ("- capability: " <> r.capability)
      ∷ ("  provider: " <> r.provider)
      ∷ optional_line "  version: " (r.version) (optional_line "  digest: " (r.digest) []))
    <> "\n"

-- `s.rstrip("\n")`
unfoldable pub without_newlines : String → String
without_newlines String.[] = ""
without_newlines (String.◌∷◌ c s) =
    let rest = without_newlines s in
    let one = String.◌∷◌ c String.[] in
    if str_eq one "\n" && not (truthy rest) then "" else one <> rest

abbrev pub unlawful : RepoPosture → MaterializationResult
unlawful posture =
    failure "UnsupportedWriteTarget"
      ("Repo posture is '"
        <> (posture_value posture
            <> "' — in-repo write is not lawful for foreign repos by default."))
      ("Use --advisory mode for foreign repos."
        ∷ "Complete alignment before writing dependency state."
        ∷ "Run: keyhole repo register — and alignment steps first." ∷ [])

abbrev pub unresolved : ResolutionOutcome → MaterializationResult
unresolved outcome =
    failure "UnresolvedOutcome"
      ("Cannot materialise: outcome status is '" <> (outcome.status <> "'."))
      ("Resolve the capability first." ∷ [])

-- `_write_native_dependency`
unfoldable pub new_content : ResolvedDependency → String → String
unfolding without_newlines strip
new_content r existing =
    if truthy (strip existing)
    then without_newlines existing <> ("\n" <> dependency_block r)
    else dependency_block r

abbrev pub is_present : ResolvedDependency → String → Bool
is_present r existing = is_within (r.capability) existing && is_within (r.provider) existing

unfoldable pub write_native_dependency :
    String → ResolvedDependency → RepoFiles → RepoFiles × MaterializationResult
unfolding new_content is_within
write_native_dependency repo_path r files =
    let target = repo_path <> "/dependencies.yaml" in
    let existing = or_default (files.dependencies) "" in
    let version = if truthy (r.version) then "@" <> r.version else "" in
    if is_present r existing
    then (files, done target "Dependency already present in dependencies.yaml (no change)." false)
    else (
      record files { dependencies = some (new_content r existing) },
      done target ("Added dependency: " <> (r.capability <> (" → " <> (r.provider <> version))))
          true,
    )

module _ (is_alnum : Char → Bool) where
  -- `_safe_dirname`
  abbrev pub safe_dirname : String → String
  safe_dirname name = safe_chars is_alnum name

  -- `_emit_advisory_artifact`
  unfoldable pub emit_advisory_artifact :
      String
      → ResolvedDependency
      → ResolutionOutcome
      → RepoFiles
      → RepoFiles × MaterializationResult
  unfolding safe_chars insert put_field
  emit_advisory_artifact state_dir r outcome files =
      let target =
        state_dir
        <> ("/resolution/"
            <> (safe_dirname (or_str (outcome.correlation_id) "unknown")
                <> "/suggested-dependency.json")) in
      let suggested =
        put_field "correlation_id" (str (outcome.correlation_id))
          (put_field "advisory" (bool true) (dependency_entry r)) in
      (
        record files { artifacts = insert target suggested (files.artifacts) },
        done target "Advisory artifact emitted (no repo mutation)." false,
      )

  module _ (repo_path state_dir : String) (outcome : ResolutionOutcome) where
    abbrev pub by_posture :
        ResolvedDependency
        → MaterializationMode
        → RepoPosture
        → RepoFiles
        → RepoFiles × MaterializationResult
    by_posture r advisory posture files = emit_advisory_artifact state_dir r outcome files
    by_posture r write native files = write_native_dependency repo_path r files
    by_posture r write foreign files = (files, unlawful foreign)
    by_posture r write ingestion_backed files = (files, unlawful ingestion_backed)

    -- An outcome that says that it is resolved, with a dependency.
    abbrev pub for_dependency :
        Bool
        → Option ResolvedDependency
        → MaterializationMode
        → RepoPosture
        → RepoFiles
        → RepoFiles × MaterializationResult
    for_dependency true (some r) mode posture files = by_posture r mode posture files
    for_dependency true none mode posture files = (files, unresolved outcome)
    for_dependency false o mode posture files = (files, unresolved outcome)

    unfoldable pub materialize_resolution :
        MaterializationMode → RepoPosture → RepoFiles → RepoFiles × MaterializationResult
    unfolding write_native_dependency emit_advisory_artifact
    materialize_resolution mode posture files =
        for_dependency (str_eq (outcome.status) "resolved") (outcome.resolved) mode posture files
