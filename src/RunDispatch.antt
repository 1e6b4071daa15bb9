-- ===== src/RunDispatch.antt =====
-- run_dispatch/request_builder.py and run_dispatch/dispatcher.py: the dispatch of a run, and what is made
-- of the answer.
-- The call of the transport, `str.lower`, `str` of a JSON value, and the proof of a call are parameters.
-- A call answers with a status code and an object, or raises. The imports inside functions do nothing.
pub mod Repair
pub mod Preflight
pub mod Honest
mod Tests
use keyhole_sdk.Base.{
  ℕ, String, Bool, true, false, not, ◌&&◌, ◌||◌, ◌⊎◌, inl, inr, Option, none, some, List, [], ◌∷◌,
  ◌++◌, elem, truthy, or_default, ◌==◌, if◌then◌else◌,
}
use keyhole_sdk.Base.Json.{
  Json, null, bool, str, arr, obj, Items, nil, cons, Fields, end, field, get_field, get_json,
  or_json, truthy_json, is_end,
}
use keyhole_sdk.RunDispatch.Repair.{map_repair_guidance}

pub data OutcomeStatus : Type 0 where
  success accepted deferred rejected failed transport_error : OutcomeStatus

abbrev pub outcome_status_value : OutcomeStatus → String
outcome_status_value success = "success"
outcome_status_value accepted = "accepted"
outcome_status_value deferred = "deferred"
outcome_status_value rejected = "rejected"
outcome_status_value failed = "failed"
outcome_status_value transport_error = "transport_error"

pub record RunRequest : Type 0 where
  pub run_type : String
  pub repo_name : String
  pub shadow : Bool
  pub context_ref : Option String
  pub input_data : Fields
  pub correlation_id : String
  pub identity_fingerprint : String
  pub timestamp : String

-- A key with a text, where there is one.
abbrev pub with_text : String → String → Fields → Fields
with_text k s rest = if truthy s then field k (str s) rest else rest

abbrev pub with_context : Option String → Fields → Fields
with_context none rest = rest
with_context (some s) rest =
    if truthy s then field "ctxpack_digest" (str s) (field "context_ref" (str s) rest) else rest

-- `RunRequest.to_payload`; no input data is the empty object.
abbrev pub to_payload : RunRequest → Fields
to_payload r = field "run_type" (str (r.run_type)) (
    field "repo" (str (r.repo_name)) (
      field "shadow" (bool (r.shadow)) (
        with_context (r.context_ref)
          (with_input (r.input_data) (with_text "correlation_id" (r.correlation_id) end)))))
  where
    with_input : Fields → Fields → Fields
    with_input d rest = if is_end d then rest else field "input" (obj d) rest

abbrev pub build_run_request :
    String → String → Bool → Option String → Fields → String → String → String → RunRequest
build_run_request run_type repo_name shadow context_ref input_data correlation_id fingerprint now =
    record {
      run_type = run_type;
      repo_name = repo_name;
      shadow = shadow;
      context_ref = context_ref;
      input_data = input_data;
      correlation_id = correlation_id;
      identity_fingerprint = fingerprint;
      timestamp = now;
    }

-- An exception of the transport: its class, its text, whether it is one of the three that say that the
-- boundary was not reached, the ids that it carries, and its status code, 0 where it has none.
pub record RaisedError : Type 0 where
  pub error_class : String
  pub message : String
  pub is_unreached : Bool
  pub ids : Option (String × Option String)
  pub status_code : ℕ

pub data Reply (P : Type 0) : Type 0 where
  returned : ℕ → Fields → P → Reply P
  raised : RaisedError → Reply P

pub record RunOutcome (P : Type 0) : Type 0 where
  pub status : OutcomeStatus
  pub run_type : String
  pub repo_name : String
  pub shadow : Bool
  pub correlation_id : String
  pub run_id : Json
  pub http_status : ℕ
  pub response_data : Fields
  pub proof : Option P
  pub error_class : Json
  pub reason : Json
  pub repair_guidance : List String

-- The exception of `.lower()` on a status that is no text, which is not caught.
pub data Escape : Type 0 where
  attribute_error : Escape

-- `inner_data`, where it is an object.
abbrev pub inner_of : Fields → Fields
inner_of d = dict_or_empty (get_json "data" d)
  where
    dict_or_empty : Json → Fields
    dict_or_empty (obj e) = e
    dict_or_empty _ = end

unfoldable pub run_id_of : Fields → Json
unfolding get_field
run_id_of d =
    or_json (get_json "run_id" d) (or_json (get_json "id" d) (get_json "run_id" (inner_of d)))

unfoldable pub status_json : Fields → Json
unfolding get_field
status_json d = or_json (get_json "status" d) (or_json (get_json "status" (inner_of d)) (str ""))

abbrev pub is_async : ℕ → String → Bool
is_async code status = code == 202 || elem status ("accepted" ∷ "pending" ∷ [])

abbrev pub is_refused : String → Bool
is_refused status = elem status ("rejected" ∷ "error" ∷ "failed" ∷ [])

module _ (show : Json → String) where
  unfoldable pub shown_items : Items → List String
  shown_items nil = []
  shown_items (cons v vs) = show v ∷ shown_items vs

  abbrev pub listed_guidance : Option Json → List String
  listed_guidance (some (arr vs)) = shown_items vs
  listed_guidance _ = []

  abbrev pub shown_field : Option Json → List String
  shown_field none = []
  shown_field (some v) = show v ∷ []

  -- `_extract_server_guidance`
  unfoldable pub extract_server_guidance : Fields → List String
  unfolding get_field shown_items
  extract_server_guidance d =
      listed_guidance (get_field "repair_guidance" d)
      ++ (shown_field (get_field "suggested_next_step" d) ++ shown_field (get_field "hint" d))

module _ {P : Type 0} (lower : String → String) (show : Json → String) where
  -- An outcome of an answer, with nothing of an error.
  unfoldable pub answered : RunRequest → ℕ → Fields → P → OutcomeStatus → RunOutcome P
  unfolding run_id_of
  answered request code d proof status = record {
    status = status;
    run_type = request.run_type;
    repo_name = request.repo_name;
    shadow = request.shadow;
    correlation_id = request.correlation_id;
    run_id = run_id_of d;
    http_status = code;
    response_data = d;
    proof = some proof;
    error_class = str "";
    reason = str "";
    repair_guidance = [];
  }

  unfoldable pub refused : RunRequest → ℕ → Fields → P → RunOutcome P
  unfolding get_field answered extract_server_guidance
  refused request code d proof = record (answered request code d proof rejected) {
    error_class = or_default (get_field "error_class" d) (str "server_rejection");
    reason = or_default (get_field "reason" d) (or_default (get_field "message" d) (str ""));
    repair_guidance = extract_server_guidance show d;
  }

  -- What is made of an answer with the status, in lower case.
  unfoldable pub outcome_by : RunRequest → ℕ → Fields → P → String → RunOutcome P
  unfolding answered refused
  outcome_by request code d proof status =
      if is_async code status
      then answered request code d proof accepted
      else if elem status ("deferred" ∷ [])
      then answered request code d proof deferred
      else if is_refused status
      then refused request code d proof
      else answered request code d proof success

  abbrev pub outcome_for : RunRequest → ℕ → Fields → P → Json → Escape ⊎ RunOutcome P
  outcome_for request code d proof (str s) = inr (outcome_by request code d proof (lower s))
  outcome_for request code d proof _ = inl attribute_error

  -- `_classify_outcome`
  unfoldable pub classify_outcome : RunRequest → ℕ → Fields → P → Escape ⊎ RunOutcome P
  unfolding outcome_by status_json
  classify_outcome request code d proof = outcome_for request code d proof (status_json d)

  -- `_handle_transport_exception`, where a proof is made of the ids of the exception.
  unfoldable pub handle_transport_exception :
      (String → Option String → P) → RunRequest → RaisedError → RunOutcome P
  unfolding map_repair_guidance
  handle_transport_exception proof_of request e = record {
    status = if e.is_unreached then transport_error else failed;
    run_type = request.run_type;
    repo_name = request.repo_name;
    shadow = request.shadow;
    correlation_id = request.correlation_id;
    run_id = null;
    http_status = e.status_code;
    response_data = end;
    proof = proof_from (e.ids);
    error_class = str (e.error_class);
    reason = str (e.message);
    repair_guidance = map_repair_guidance (e.error_class);
  }
    where
      proof_from : Option (String × Option String) → Option P
      proof_from none = none
      proof_from (some (request_id, key)) = some (proof_of request_id key)

  abbrev pub outcome_of :
      (String → Option String → P) → RunRequest → Reply P → Escape ⊎ RunOutcome P
  outcome_of proof_of request (returned code d proof) = classify_outcome request code d proof
  outcome_of proof_of request (raised e) = inr (handle_transport_exception proof_of request e)

  -- `dispatch_run`, over a transport that threads a world.
  unfoldable pub dispatch_run :
      {W : Type 0}
      → (String → Option String → P)
      → (String → String → Fields → W → W × Reply P)
      → RunRequest
      → W
      → W × (Escape ⊎ RunOutcome P)
  unfolding classify_outcome handle_transport_exception
  dispatch_run proof_of execute request w =
      let r = execute "/mcp/v1/runs/start" "run.start" (to_payload request) w in
      (r.0, outcome_of proof_of request (r.1))
