-- ===== src/Registration/Tests.antt =====
-- Repositories that can and that cannot be registered.
use keyhole_sdk.Base.{◌≡◌, refl, true, none, some}
use keyhole_sdk.Base.Json.{end}
use keyhole_sdk.Registration.Readiness.{
  NativeArtifacts, partially_ready, assess_readiness, assess_declared, assess_native_readiness,
  artifact_count, is_eligible, Agrees,
}
use keyhole_sdk.Registration.Readiness.Eligibility.{assess_readiness-Agrees}

abbrev scaffold : NativeArtifacts
scaffold = record {
  keyhole = some end;
  governance_contract = some end;
  capability_passport = none;
  dependencies = none;
}

two_of_four :
    (assess_readiness "repo" true true (some scaffold) none "").readiness ≡ partially_ready
unfolding assess_readiness assess_declared assess_native_readiness artifact_count
two_of_four = refl

assess_readiness-Agrees_example :
    Agrees
      (is_eligible true true (some scaffold) none "")
      (assess_readiness "repo" true true (some scaffold) none "")
assess_readiness-Agrees_example = assess_readiness-Agrees "repo" true true (some scaffold) none ""
