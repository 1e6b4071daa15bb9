-- ===== src/Registration/Readiness.antt =====
-- registration/readiness.py, with the artifacts and references of registration/models.py: whether a
-- repository can be registered. That its path is a directory is a parameter; of an artifact and of an
-- ingestion only what the assessment reads is kept.
pub mod Eligibility
use keyhole_sdk.Base.{
  ℕ, ◌+◌, ◌≡◌, refl, String, Bool, true, false, not, ◌&&◌, ◌||◌, Option, none, some, List, [], ◌∷◌,
  ◌++◌, is_some, is_empty, leb, str_eq, truthy, if◌then◌else◌, arith, Bool-cases, inl, inr,
}
use keyhole_sdk.Base.Json.{Fields}
use keyhole_sdk.Base.Text.{◌<>◌}

pub data RegistrationSource : Type 0 where
  native ingestion : RegistrationSource

pub data RegistrationReadiness : Type 0 where
  native_ready ingestion_ready partially_ready not_ready : RegistrationReadiness

pub record NativeArtifacts : Type 0 where
  pub keyhole : Option Fields
  pub governance_contract : Option Fields
  pub capability_passport : Option Fields
  pub dependencies : Option Fields

pub record IngestionReference : Type 0 where
  pub ingest_id : String
  pub compatibility_posture : String

pub record ReadinessCheck : Type 0 where
  pub readiness : RegistrationReadiness
  pub source : RegistrationSource
  pub blockers : List String
  pub warnings : List String

abbrev pub can_proceed : ReadinessCheck → Bool
can_proceed r = is_empty (r.blockers)

abbrev pub preflight_status : ReadinessCheck → String
preflight_status r = if can_proceed r then "PASS" else "FAIL"

abbrev pub one_if : Option Fields → ℕ
one_if none = 0
one_if (some d) = 1

unfoldable pub artifact_count : NativeArtifacts → ℕ
artifact_count a =
    one_if (a.keyhole)
    + one_if (a.governance_contract)
    + one_if (a.capability_passport)
    + one_if (a.dependencies)

abbrev pub verdict :
    RegistrationReadiness → RegistrationSource → List String → List String → ReadinessCheck
verdict readiness source blockers warnings = record {
  readiness = readiness;
  source = source;
  blockers = blockers;
  warnings = warnings;
}

abbrev pub add_if : Bool → String → List String → List String
add_if b s xs = if b then xs ++ s ∷ [] else xs

unfoldable pub assess_native_readiness : List String → NativeArtifacts → ReadinessCheck
unfolding artifact_count
assess_native_readiness blockers a =
    let warnings =
      add_if (not (is_some (a.capability_passport)))
        "capability_passport.yaml not found. Generate or repair the capability passport for full alignment."
        (add_if (not (is_some (a.governance_contract)))
          "governance_contract.yaml not found. Registration may proceed but the server may request it later."
          []) in
    if not (is_empty blockers)
    then verdict not_ready native blockers warnings
    else if leb 3 (artifact_count a)
    then verdict native_ready native [] warnings
    else verdict partially_ready native [] warnings

abbrev pub is_foreign : Option IngestionReference → Bool
is_foreign none = false
is_foreign (some r) = str_eq (r.compatibility_posture) "foreign"

unfoldable pub assess_ingestion_readiness :
    List String → Option IngestionReference → String → ReadinessCheck
assess_ingestion_readiness blockers reference from_ingest =
    let warnings =
      add_if (is_foreign reference)
        "Compatibility posture is 'foreign'. Registration may be accepted but alignment guidance is recommended."
        [] in
    if not (is_some reference) && not (truthy from_ingest)
    then verdict not_ready ingestion
        (blockers
          ++ "Ingestion-backed registration requires an ingestion reference. Run: keyhole ingest . — then --from-ingest <id>."
            ∷ [])
        []
    else if not (is_empty blockers)
    then verdict not_ready ingestion blockers warnings
    else verdict ingestion_ready ingestion [] warnings

-- The blockers of every registration.
abbrev pub baseline : String → Bool → Bool → List String
baseline repo_path is_dir has_auth =
    add_if (not is_dir) ("Repository path does not exist or is not a directory: " <> repo_path)
      (add_if (not has_auth) "Not authenticated. Run: keyhole login" [])

unfoldable pub assess_unknown : List String → ReadinessCheck
assess_unknown blockers =
    verdict not_ready native
      (add_if (is_empty blockers)
        "No Keyhole scaffold and no ingestion reference found. Run: keyhole ingest . — then: keyhole repo register --from-ingest <id>"
        blockers)
      []

abbrev pub has_scaffold : Option NativeArtifacts → Bool
has_scaffold none = false
has_scaffold (some a) = is_some (a.keyhole)

unfoldable pub assess_declared : List String → Option NativeArtifacts → ReadinessCheck
unfolding assess_native_readiness assess_unknown
assess_declared blockers none = assess_unknown blockers
assess_declared blockers (some a) =
    if is_some (a.keyhole) then assess_native_readiness blockers a else assess_unknown blockers

unfoldable pub assess_readiness :
    String
    → Bool
    → Bool
    → Option NativeArtifacts
    → Option IngestionReference
    → String
    → ReadinessCheck
unfolding assess_ingestion_readiness assess_declared
assess_readiness repo_path is_dir has_auth artifacts reference from_ingest =
    let blockers = baseline repo_path is_dir has_auth in
    if truthy from_ingest || is_some reference
    then assess_ingestion_readiness blockers reference from_ingest
    else assess_declared blockers artifacts

abbrev pub is_ready : RegistrationReadiness → Bool
is_ready not_ready = false
is_ready _ = true

-- A repository has what any registration needs.
abbrev pub is_eligible :
    Bool → Bool → Option NativeArtifacts → Option IngestionReference → String → Bool
is_eligible is_dir has_auth artifacts reference from_ingest =
    is_dir && has_auth && (truthy from_ingest || is_some reference || has_scaffold artifacts)

-- Both what a check calls ready and what it lets proceed.
abbrev pub Agrees : Bool → ReadinessCheck → Type 0
Agrees b r = (can_proceed r ≡ b) × (is_ready (r.readiness) ≡ b)
