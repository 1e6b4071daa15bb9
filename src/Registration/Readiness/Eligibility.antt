-- ===== src/Registration/Readiness/Eligibility.antt =====
-- registration/readiness.py: which repositories are ready.
use keyhole_sdk.Base.{
  ◌≡◌, refl, String, Bool, true, false, ◌&&◌, ◌||◌, Option, none, some, List, [], ◌∷◌, is_some,
  is_empty, leb, truthy, if◌then◌else◌, arith, Bool-cases, inl, inr,
}
use keyhole_sdk.Registration.Readiness.{
  NativeArtifacts, IngestionReference, ReadinessCheck, artifact_count, is_eligible, Agrees,
  baseline, has_scaffold, assess_native_readiness, assess_unknown, assess_declared,
  assess_ingestion_readiness, assess_readiness,
}

assess_native_readiness-Agrees :
    (blockers : List String) (a : NativeArtifacts)
    → Agrees (is_empty blockers) (assess_native_readiness blockers a)
unfolding assess_native_readiness
assess_native_readiness-Agrees [] a = elim (Bool-cases (leb 3 (artifact_count a))) [
  | inl e ↦ simp e (refl, refl)
  | inr e ↦ simp e (refl, refl)
]
assess_native_readiness-Agrees (b ∷ bs) a = (refl, refl)

assess_unknown-Agrees : (blockers : List String) → Agrees false (assess_unknown blockers)
unfolding assess_unknown
assess_unknown-Agrees [] = (refl, refl)
assess_unknown-Agrees (b ∷ bs) = (refl, refl)

assess_declared-Agrees :
    (blockers : List String) (artifacts : Option NativeArtifacts)
    → Agrees (is_empty blockers && has_scaffold artifacts) (assess_declared blockers artifacts)
unfolding assess_declared
assess_declared-Agrees [] none = assess_unknown-Agrees []
assess_declared-Agrees (b ∷ bs) none = assess_unknown-Agrees (b ∷ bs)
assess_declared-Agrees [] (some a) = elim (Bool-cases (is_some (a.keyhole))) [
  | inl e ↦ simp e (assess_native_readiness-Agrees [] a)
  | inr e ↦ simp e (assess_unknown-Agrees [])
]
assess_declared-Agrees (b ∷ bs) (some a) = elim (Bool-cases (is_some (a.keyhole))) [
  | inl e ↦ simp e (assess_native_readiness-Agrees (b ∷ bs) a)
  | inr e ↦ simp e (assess_unknown-Agrees (b ∷ bs))
]

assess_ingestion_readiness-Agrees :
    (blockers : List String) (reference : Option IngestionReference) (from_ingest : String)
    → (truthy from_ingest || is_some reference) ≡ true
    → Agrees (is_empty blockers) (assess_ingestion_readiness blockers reference from_ingest)
unfolding assess_ingestion_readiness
assess_ingestion_readiness-Agrees [] reference from_ingest h = (ground arith, ground arith)
assess_ingestion_readiness-Agrees (b ∷ bs) reference from_ingest h = (ground arith, ground arith)

moved : (a b : Bool) (r : ReadinessCheck) → a ≡ b → Agrees a r → Agrees b r
moved a b r e h = coe 0 1 (i. Agrees (e i) r) h

assessed-Agrees :
    (blockers : List String) (artifacts : Option NativeArtifacts)
    → (reference : Option IngestionReference) (from_ingest : String)
    → Agrees
        (is_empty blockers && (truthy from_ingest || is_some reference || has_scaffold artifacts))
        (if truthy from_ingest || is_some reference
          then assess_ingestion_readiness blockers reference from_ingest
          else assess_declared blockers artifacts)
assessed-Agrees blockers artifacts reference from_ingest =
    let has_source = truthy from_ingest || is_some reference || has_scaffold artifacts in
    let chosen =
      if truthy from_ingest || is_some reference
      then assess_ingestion_readiness blockers reference from_ingest
      else assess_declared blockers artifacts in
    elim (Bool-cases (truthy from_ingest || is_some reference)) [
      | inl e ↦
          moved (is_empty blockers) (is_empty blockers && has_source) chosen (ground arith)
            (simp e (assess_ingestion_readiness-Agrees blockers reference from_ingest e))
      | inr e ↦
          moved (is_empty blockers && has_scaffold artifacts) (is_empty blockers && has_source)
            chosen (ground arith) (simp e (assess_declared-Agrees blockers artifacts))
    ]

-- A check lets a registration proceed, and calls the repository ready, just when the path is a
-- directory, the user is authenticated, and there is an ingestion that is named, one that was made
-- before, or a keyhole.yaml.
pub assess_readiness-Agrees :
    (repo_path : String) (is_dir has_auth : Bool) (artifacts : Option NativeArtifacts)
    → (reference : Option IngestionReference) (from_ingest : String)
    → Agrees
        (is_eligible is_dir has_auth artifacts reference from_ingest)
        (assess_readiness repo_path is_dir has_auth artifacts reference from_ingest)
unfolding assess_readiness
assess_readiness-Agrees p true true a r f = assessed-Agrees (baseline p true true) a r f
assess_readiness-Agrees p true false a r f = assessed-Agrees (baseline p true false) a r f
assess_readiness-Agrees p false true a r f = assessed-Agrees (baseline p false true) a r f
assess_readiness-Agrees p false false a r f = assessed-Agrees (baseline p false false) a r f
