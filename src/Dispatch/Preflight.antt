-- ===== src/Dispatch/Preflight.antt =====
-- dispatch/preflight.py: the checks of a run type and of its parameters before a dispatch.
pub mod Gate
pub mod Static
use keyhole_sdk.Base.{
  String, Bool, true, false, not, ◌&&◌, ◌||◌, Option, none, some, List, [], ◌∷◌, ◌++◌, is_empty,
  or_str, truthy, if◌then◌else◌,
}
use keyhole_sdk.Base.Json.{Fields}
use keyhole_sdk.Base.Text.{◌<>◌, is_within, ends_with}
use keyhole_sdk.Base.Texts.{join}
use keyhole_sdk.Dispatch.Models.{
  RunTypeStatus, valid, invalid, unknown, ambiguous, discovery_unavailable, RunTypeCheckResult,
  SchemaHint, PreflightStatus, pass, warn, reject, PreflightResult, RecoveryAction,
  ErrorRecoveryGuidance,
}
use keyhole_sdk.Dispatch.Validator.{RunTypeValidator}
use keyhole_sdk.Dispatch.Validator.Check.{check}
use keyhole_sdk.Dispatch.Schema.{SchemaHelper, get_hint, validate_params}

pub record DispatchPreflight : Type 0 where
  pub validator : RunTypeValidator
  pub schema : SchemaHelper

-- A warning that a required parameter is missing, by its words.
unfoldable pub is_missing_warning : String → Bool
unfolding is_within
is_missing_warning w = is_within "Required parameter" w && is_within "is missing" w

unfoldable pub has_missing_required : List String → Bool
unfolding is_missing_warning
has_missing_required [] = false
has_missing_required (w ∷ ws) = is_missing_warning w || has_missing_required ws

abbrev pub rejected : String → String → String → PreflightResult
rejected run_type reason next = record {
  status = reject;
  run_type = run_type;
  reason = reason;
  suggested_next_step = next;
  warnings = [];
}

abbrev pub invalid_next : List String → String
invalid_next [] = "Re-check capabilities via GET /mcp/v1/capabilities."
invalid_next (s ∷ ss) = "Use the exact canonical name: " <> join ", " (s ∷ ss)

-- What is made of the warnings for an accepted run type.
unfoldable pub weigh : String → SchemaHint → List String → PreflightResult
unfolding has_missing_required
weigh run_type hint warnings =
    if is_empty warnings
    then record {
      status = pass;
      run_type = run_type;
      reason = "Run type is canonical and parameters are valid.";
      suggested_next_step = "";
      warnings = [];
    }
    else if has_missing_required warnings
    then record {
      status = reject;
      run_type = run_type;
      reason = "Required parameters are missing.";
      suggested_next_step = "Consult schema for required parameters. Hint: " <> hint.notes;
      warnings = warnings;
    }
    else record {
      status = warn;
      run_type = run_type;
      reason = "Preflight passed with warnings.";
      suggested_next_step = "Review warnings before dispatch.";
      warnings = warnings;
    }

abbrev pub infer_error_class : RunTypeStatus → String → String
infer_error_class invalid run_type =
    if ends_with "s" run_type || ends_with "es" run_type || ends_with "ies" run_type
    then "guessed_pluralization"
    else "invalid_run_type"
infer_error_class unknown run_type = "unknown_run_type"
infer_error_class _ run_type = "dispatch_error"

abbrev pub recovery_action : String → String → RecoveryAction
recovery_action action detail = record { action = action; detail = detail }

abbrev pub exact_name : List String → List RecoveryAction
exact_name [] = []
exact_name (s ∷ ss) =
    recovery_action "Use exact canonical name" ("Try: " <> join ", " (s ∷ ss)) ∷ []

abbrev pub required_action : SchemaHint → List RecoveryAction
required_action hint =
    if hint.available && not (is_empty (hint.required_params))
    then recovery_action "Check required parameters"
        ("Required: " <> join ", " (hint.required_params))
      ∷ []
    else []

abbrev pub recovery_message : RunTypeStatus → String → String
recovery_message invalid run_type =
    "'" <> (run_type <> "' is not a canonical run type. Exact canonical names are required.")
recovery_message unknown run_type =
    "'" <> (run_type <> "' is not recognized. The developer kit has no guidance for this name.")
recovery_message valid run_type =
    "'"
    <> (run_type <> "' is a valid canonical run type. Check request parameters or connectivity.")
recovery_message _ run_type = ""

module _ (lower : String → String) (p : DispatchPreflight) where
  abbrev pub by_status :
      String → Option Fields → RunTypeCheckResult → RunTypeStatus → PreflightResult
  by_status run_type params r invalid = rejected run_type (r.reason) (invalid_next (r.suggestions))
  by_status run_type params r unknown =
      rejected run_type (r.reason)
        "Re-check capabilities via GET /mcp/v1/capabilities. Do not guess run-type names."
  by_status run_type params r discovery_unavailable =
      rejected run_type (r.reason)
        "Refresh capabilities or use a valid cache before dispatching server-added operations."
  by_status run_type params r ambiguous =
      rejected run_type (r.reason)
        "The server capability contract advertises an ambiguous operation alias. Refresh capabilities or contact the operator."
  by_status run_type params r valid =
      weigh (or_str (r.canonical_run_type) run_type) (get_hint (p.schema) run_type)
        (validate_params (p.schema) run_type params)

  -- `DispatchPreflight.check`
  unfoldable pub preflight : String → Option Fields → PreflightResult
  unfolding weigh get_hint validate_params check
  preflight run_type params =
      let r = check lower (p.validator) run_type in by_status run_type params r (r.status)

  unfoldable pub resolve_run_type : String → String
  unfolding check
  resolve_run_type run_type =
      or_str ((check lower (p.validator) run_type).canonical_run_type) run_type

  abbrev pub recovery_actions : RunTypeStatus → String → List String → List RecoveryAction
  recovery_actions invalid run_type suggestions =
      exact_name suggestions
      ++ (recovery_action "Re-check capabilities" "GET /mcp/v1/capabilities for published guidance."
          ∷ recovery_action "Stop guessing"
              "Run types are exact keys, not REST resource guesses. Do not pluralize, singularize, or improvise."
          ∷ [])
  recovery_actions unknown run_type suggestions =
      recovery_action "Re-check capabilities" "GET /mcp/v1/capabilities for current guidance."
      ∷ recovery_action "Retrieve schema" "Consult schema discovery for valid run types."
      ∷ recovery_action "Do not dispatch blindly"
          "Server rejection should not be the primary teacher. Discover first, then dispatch."
      ∷ []
  recovery_actions valid run_type suggestions =
      required_action (get_hint (p.schema) run_type)
      ++ recovery_action "Verify connectivity"
          "Ensure the boundary is reachable and token is valid."
        ∷ []
  recovery_actions _ run_type suggestions = []

  unfoldable pub get_recovery_guidance : String → String → ErrorRecoveryGuidance
  unfolding check get_hint ends_with
  get_recovery_guidance run_type error_class =
      let r = check lower (p.validator) run_type in
      record {
        error_class = or_str error_class (infer_error_class (r.status) run_type);
        run_type = run_type;
        message = recovery_message (r.status) run_type;
        actions = recovery_actions (r.status) run_type (r.suggestions);
      }
