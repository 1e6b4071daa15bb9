-- ===== src/Capability/Outcomes.antt =====
-- capability/models.py and capability/resolver.py: a request, and the outcomes of its resolution. A
-- field of an answer that does not have the type of the model's field is outside the model, but for
-- `status` and `resolved`.
use keyhole_sdk.Base.{
  ℕ, String, Bool, true, false, ◌⊎◌, inl, inr, Option, none, some, List, [], ◌∷◌, ◌++◌, truthy,
  if◌then◌else◌,
}
use keyhole_sdk.Base.Json.{
  Json, bool, str, arr, obj, Items, nil, cons, Fields, end, field, get_field,
}
use keyhole_sdk.Base.Text.{◌<>◌}
use keyhole_sdk.Base.Texts.{join}
use keyhole_sdk.Capability.Repair.{map_capability_repair}

pub record ResolutionRequest : Type 0 where
  pub capability : String
  pub provider : String
  pub version : String
  pub repo_identity : String
  pub repo_posture : String
  pub mode : String
  pub identity_fingerprint : String
  pub correlation_id : String
  pub timestamp : String

abbrev pub with_text : String → String → Fields → Fields
with_text k s rest = if truthy s then field k (str s) rest else rest

-- `ResolutionRequest.to_payload`; the posture and the mode are their values.
abbrev pub resolution_payload : ResolutionRequest → Fields
resolution_payload r = field "capability" (str (r.capability)) (
    field "context"
      (obj (
        field "repo_identity" (str (r.repo_identity))
          (field "repo_posture" (str (r.repo_posture)) end)))
      (field "mode" (str (r.mode)) (
        field "identity_fingerprint" (str (r.identity_fingerprint)) (
          field "correlation_id" (str (r.correlation_id)) (
            field "timestamp" (str (r.timestamp))
              (with_text "provider" (r.provider) (with_text "version" (r.version) end)))))))

pub record CapabilityCandidate : Type 0 where
  pub capability : String
  pub provider : String
  pub version : String
  pub visibility : String
  pub summary : String
  pub digest : String

pub record ResolvedDependency : Type 0 where
  pub capability : String
  pub provider : String
  pub version : String
  pub digest : String
  pub reason : String

pub record ResolutionOutcome : Type 0 where
  pub status : String
  pub resolved : Option ResolvedDependency
  pub candidates : List CapabilityCandidate
  pub mode : String
  pub correlation_id : String
  pub http_status : ℕ
  pub is_replay : Bool
  pub error_class : String
  pub reason : String
  pub repair_guidance : List String
  pub warnings : List String
  pub is_local_failure : Bool
  pub response_data : Fields

-- The exception of a method on a value that does not have it, which is not caught.
pub data Escape : Type 0 where
  attribute_error : Escape

-- `d.get(k, default)` of a text, of a Boolean and of a list of texts.
abbrev pub text_or : String → String → Option Json → String
text_or k t (some (str s)) = s
text_or k t _ = t

abbrev pub text_field : String → String → Fields → String
text_field k t d = text_or k t (get_field k d)

abbrev pub flag_or : Bool → Option Json → Bool
flag_or b (some (bool c)) = c
flag_or b _ = b

abbrev pub texts_or : List String → Option Json → List String
texts_or ts (some (arr vs)) = texts vs
  where
    texts : Items → List String
    texts nil = []
    texts (cons (str s) ws) = s ∷ texts ws
    texts (cons _ ws) = texts ws
texts_or ts _ = ts

unfoldable pub candidate_of : Fields → CapabilityCandidate
unfolding get_field
candidate_of raw = record {
  capability = text_field "capability" (text_field "name" "" raw) raw;
  provider = text_field "provider" "" raw;
  version = text_field "version" "" raw;
  visibility = text_field "visibility" "public" raw;
  summary = text_field "summary" "" raw;
  digest = text_field "digest" "" raw;
}

-- `_parse_candidates`
unfoldable pub parse_candidates : Items → List CapabilityCandidate
unfolding candidate_of
parse_candidates nil = []
parse_candidates (cons (obj raw) vs) = candidate_of raw ∷ parse_candidates vs
parse_candidates (cons _ vs) = parse_candidates vs

abbrev pub candidates_in : Option Json → List CapabilityCandidate
candidates_in (some (arr vs)) = parse_candidates vs
candidates_in _ = []

abbrev pub providers_of : List CapabilityCandidate → List String
providers_of [] = []
providers_of (c ∷ cs) =
    let rest = providers_of cs in if truthy (c.provider) then c.provider ∷ rest else rest

-- `_ambiguity_repair`
abbrev pub ambiguity_repair : ResolutionRequest → List CapabilityCandidate → List String
ambiguity_repair request candidates =
    ("Multiple providers satisfy '" <> (request.capability <> "' — no lawful tie-break exists."))
    ∷ ((if truthy (join ", " (providers_of candidates))
          then ("Candidates: " <> join ", " (providers_of candidates)) ∷ []
          else [])
        ++ ("Specify --provider <name> to pin a provider explicitly."
            ∷ ("Inspect candidates: keyhole search " <> request.capability)
            ∷ []))

-- The outcome of an answer, with the common fields.
unfoldable pub outcome_with : ResolutionRequest → ℕ → Fields → String → ResolutionOutcome
unfolding get_field
outcome_with request code d status = record {
  status = status;
  resolved = none;
  candidates = [];
  mode = request.mode;
  correlation_id = request.correlation_id;
  http_status = code;
  is_replay = flag_or (flag_or false (get_field "replayed" d)) (get_field "is_replay" d);
  error_class = "";
  reason = "";
  repair_guidance = [];
  warnings = texts_or [] (get_field "warnings" d);
  is_local_failure = false;
  response_data = d;
}

unfoldable pub ambiguous_outcome : ResolutionRequest → ℕ → Fields → ResolutionOutcome
unfolding outcome_with parse_candidates
ambiguous_outcome request code d =
    let candidates = candidates_in (get_field "candidates" d) in
    record (outcome_with request code d "ambiguous") {
      candidates = candidates;
      repair_guidance = ambiguity_repair request candidates;
    }

unfoldable pub incompatible_outcome : ResolutionRequest → ℕ → Fields → ResolutionOutcome
unfolding outcome_with parse_candidates get_field
incompatible_outcome request code d = record (outcome_with request code d "incompatible") {
  candidates = candidates_in (get_field "candidates" d);
  reason = text_field "reason" "No compatible provider found." d;
  repair_guidance =
      texts_or
        (("Inspect candidate providers: keyhole search " <> request.capability)
          ∷ "Refine version or provider constraints."
          ∷ [])
        (get_field "repair_guidance" d);
}

unfoldable pub not_found_outcome : ResolutionRequest → ℕ → Fields → ResolutionOutcome
unfolding outcome_with get_field
not_found_outcome request code d = record (outcome_with request code d "not_found") {
  reason = text_field "reason" ("Capability '" <> (request.capability <> "' not found.")) d;
  repair_guidance =
      ("Check spelling: '" <> (request.capability <> "'."))
      ∷ ("Try: keyhole search " <> (request.capability <> " — to discover candidates."))
      ∷ [];
}

unfoldable pub dependency_of : ResolutionRequest → Fields → ResolvedDependency
unfolding get_field
dependency_of request d = record {
  capability = text_field "capability" (request.capability) d;
  provider = text_field "provider" "" d;
  version = text_field "version" "" d;
  digest = text_field "digest" "" d;
  reason = text_field "reason" (text_field "selection_reason" "" d) d;
}

abbrev pub resolved_with : ResolutionRequest → ℕ → Fields → Option Json → Escape ⊎ ResolutionOutcome
resolved_with request code d none =
    inr (record (outcome_with request code d "resolved") {
      resolved = some (dependency_of request d);
    })
resolved_with request code d (some (obj r)) =
    inr (record (outcome_with request code d "resolved") {
      resolved = some (dependency_of request r);
    })
resolved_with request code d (some _) = inl attribute_error

unfoldable pub resolved_outcome : ResolutionRequest → ℕ → Fields → Escape ⊎ ResolutionOutcome
unfolding outcome_with dependency_of get_field
resolved_outcome request code d = resolved_with request code d (get_field "resolved" d)

-- `_handle_resolution_exception`
unfoldable pub handle_resolution_exception : ResolutionRequest → String → String → ResolutionOutcome
unfolding map_capability_repair
handle_resolution_exception request error_class message = record {
  status = "failed";
  resolved = none;
  candidates = [];
  mode = request.mode;
  correlation_id = request.correlation_id;
  http_status = 0;
  is_replay = false;
  error_class = error_class;
  reason = message;
  repair_guidance = map_capability_repair error_class;
  warnings = [];
  is_local_failure = true;
  response_data = end;
}
