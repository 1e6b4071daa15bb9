-- ===== src/Dispatch/Preflight/Gate.antt =====
-- dispatch/preflight.py: when a dispatch may proceed.
use keyhole_sdk.Base.{
  ◌≡◌, refl, String, Bool, true, false, not, ◌&&◌, Option, none, some, List, [], ◌∷◌, is_empty,
  arith,
}
use keyhole_sdk.Base.Json.{Fields}
use keyhole_sdk.Base.Text.{◌<>◌, is_within}
use keyhole_sdk.Base.Within.{is_within-left, is_within-right}
use keyhole_sdk.Dispatch.Models.{
  RunTypeStatus, valid, invalid, unknown, ambiguous, discovery_unavailable, RunTypeCheckResult,
  SchemaHint, PreflightStatus, pass, PreflightResult, is_valid, should_proceed,
}
use keyhole_sdk.Dispatch.Validator.Check.{check}
use keyhole_sdk.Dispatch.Schema.{
  SchemaHelper, get_hint, required_of, missing_of, missing_warning, warnings_for, param_warnings,
  validate_params,
}
use keyhole_sdk.Dispatch.Preflight.{
  DispatchPreflight, is_missing_warning, has_missing_required, weigh, by_status, preflight,
}

missing_warning-counts :
    (run_type req : String) → is_missing_warning (missing_warning run_type req) ≡ true
unfolding is_missing_warning is_within
missing_warning-counts run_type req =
    let rest = "' is missing for '" <> (run_type <> "'.") in
    let first = is_within-left "Required parameter" "Required parameter '" (req <> rest) refl in
    let second = is_within-right "is missing" "Required parameter '" (req <> rest) (
      is_within-right "is missing" req rest
        (is_within-left "is missing" "' is missing for '" (run_type <> "'.") refl)) in
    ground (arith, first, second)

-- Every required parameter is given, or none is looked for.
abbrev pub is_complete : SchemaHint → Option Fields → Bool
is_complete hint none = true
is_complete hint (some params) = is_empty (missing_of params (required_of hint))

abbrev pub is_pass : PreflightResult → Bool
is_pass r = passes (r.status)
  where
    passes : PreflightStatus → Bool
    passes pass = true
    passes _ = false

-- The warnings that name missing parameters are told from the others by their words.
warnings_for-counts :
    (run_type : String) (missing : List String)
    → has_missing_required (warnings_for run_type missing) ≡ not (is_empty missing)
unfolding has_missing_required
warnings_for-counts run_type [] = refl
warnings_for-counts run_type (r ∷ rs) = ground (arith, missing_warning-counts run_type r)

warnings_for-empty :
    (run_type : String) (missing : List String)
    → is_empty (warnings_for run_type missing) ≡ is_empty missing
warnings_for-empty run_type [] = refl
warnings_for-empty run_type (r ∷ rs) = refl

-- What stands between a test and the two questions: may it proceed, and without a warning.
abbrev pub Decides : PreflightResult → Bool → Type 0
Decides r b = (should_proceed r ≡ b) × (is_pass r ≡ b)

weigh-Decides :
    (run_type : String) (hint : SchemaHint) (name : String) (params : Option Fields)
    → Decides (weigh run_type hint (param_warnings hint name params)) (is_complete hint params)
unfolding weigh
weigh-Decides run_type hint name none = (refl, refl)
weigh-Decides run_type hint name (some params) = by_missing (missing_of params (required_of hint))
  where
    by_missing :
        (missing : List String)
        → Decides (weigh run_type hint (warnings_for name missing)) (is_empty missing)
    by_missing [] = (refl, refl)
    by_missing (m ∷ ms) = (
      simp (warnings_for-counts name (m ∷ ms)) refl,
      simp (warnings_for-counts name (m ∷ ms)) refl,
    )

validate_params-available :
    (helper : SchemaHelper) (run_type : String) (params : Option Fields)
    → (get_hint helper run_type).available ≡ true
    → validate_params helper run_type params
      ≡ param_warnings (get_hint helper run_type) run_type params
unfolding validate_params
validate_params-available helper run_type params e = rw (e, validate_params) refl

module _ (lower : String → String) (p : DispatchPreflight) where
  by_status-Decides :
      (run_type : String) (params : Option Fields) (r : RunTypeCheckResult)
      → (get_hint (p.schema) run_type).available ≡ true
      → Decides
          (by_status lower p run_type params r (r.status))
          (is_valid r && is_complete (get_hint (p.schema) run_type) params)
  by_status-Decides run_type params r e = by_cases (r.status)
    where
      by_cases :
          (s : RunTypeStatus)
          → Decides (by_status lower p run_type params r s) (
              is_valid (record r { status = s })
              && is_complete (get_hint (p.schema) run_type) params)
      by_cases invalid = (refl, refl)
      by_cases unknown = (refl, refl)
      by_cases ambiguous = (refl, refl)
      by_cases discovery_unavailable = (refl, refl)
      by_cases valid =
          rw (validate_params-available (p.schema) run_type params e)
            (weigh-Decides _ (get_hint (p.schema) run_type) run_type params)

  -- Where the parameters of the run type are known, a dispatch may proceed exactly when the run type
  -- is accepted and no required parameter is left out of the parameters that are given, and it then
  -- passes without a warning.
  pub preflight-Decides :
      (run_type : String) (params : Option Fields)
      → (get_hint (p.schema) run_type).available ≡ true
      → Decides (preflight lower p run_type params) (
          is_valid (check lower (p.validator) run_type)
          && is_complete (get_hint (p.schema) run_type) params)
  unfolding preflight
  preflight-Decides run_type params e =
      by_status-Decides run_type params (check lower (p.validator) run_type) e
