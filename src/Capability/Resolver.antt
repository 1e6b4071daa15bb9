-- ===== src/Capability/Resolver.antt =====
-- capability/resolver.py: which outcome is made of an answer. The call of the transport and
-- `str.lower` are parameters. A call answers with a status code and an object, or raises an exception
-- of a named class with a text.
pub mod Closed
use keyhole_sdk.Base.{
  ℕ, String, ◌||◌, ◌⊎◌, inl, inr, Option, none, some, [], ◌∷◌, elem, leb, ◌==◌, str_eq,
  if◌then◌else◌,
}
use keyhole_sdk.Base.Json.{Json, str, Fields, get_field}
use keyhole_sdk.Capability.Outcomes.{
  ResolutionRequest, ResolutionOutcome, Escape, attribute_error, resolution_payload, text_field,
  texts_or, outcome_with, ambiguous_outcome, incompatible_outcome, not_found_outcome,
  resolved_outcome, handle_resolution_exception,
}

-- `_classify_error`, for a status in lower case.
unfoldable pub classify_error : ResolutionRequest → ℕ → Fields → String → ResolutionOutcome
unfolding outcome_with ambiguous_outcome get_field
classify_error request code d status =
    if str_eq status "ambiguous"
    then ambiguous_outcome request code d
    else record (outcome_with request code d "rejected") {
      error_class = text_field "error_class" "server_rejection" d;
      reason = text_field "reason" (text_field "message" "" d) d;
      repair_guidance = texts_or [] (get_field "repair_guidance" d);
    }

-- What is made of an answer with the status, in lower case.
unfoldable pub outcome_by :
    ResolutionRequest → ℕ → Fields → String → String → Escape ⊎ ResolutionOutcome
unfolding outcome_with classify_error ambiguous_outcome incompatible_outcome not_found_outcome
    resolved_outcome
outcome_by request code d error_status status =
    if leb 400 code
    then inr (classify_error request code d error_status)
    else if code == 202 || elem status ("accepted" ∷ "pending" ∷ [])
    then inr (outcome_with request code d "accepted")
    else if str_eq status "deferred"
    then inr (outcome_with request code d "deferred")
    else if str_eq status "ambiguous"
    then inr (ambiguous_outcome request code d)
    else if str_eq status "incompatible"
    then inr (incompatible_outcome request code d)
    else if str_eq status "not_found"
    then inr (not_found_outcome request code d)
    else resolved_outcome request code d

-- What a call of the transport gives.
pub data Reply : Type 0 where
  returned : ℕ → Fields → Reply
  raised : String → String → Reply

module _ (lower : String → String) where
  -- A missing status is "" for an answer, and "rejected" for an error; a status that is no text has no
  -- `lower`.
  abbrev pub outcome_for : ResolutionRequest → ℕ → Fields → Option Json → Escape ⊎ ResolutionOutcome
  outcome_for request code d none = outcome_by request code d (lower "rejected") (lower "")
  outcome_for request code d (some (str s)) = outcome_by request code d (lower s) (lower s)
  outcome_for request code d (some _) = inl attribute_error

  -- `_classify_resolution`
  unfoldable pub classify_resolution : ResolutionRequest → ℕ → Fields → Escape ⊎ ResolutionOutcome
  unfolding outcome_by get_field
  classify_resolution request code d = outcome_for request code d (get_field "status" d)

  abbrev pub resolution_of : ResolutionRequest → Reply → Escape ⊎ ResolutionOutcome
  resolution_of request (returned code d) = classify_resolution request code d
  resolution_of request (raised error_class message) =
      inr (handle_resolution_exception request error_class message)

  -- `submit_resolution`, over a transport that threads a world.
  unfoldable pub submit_resolution :
      {W : Type 0}
      → (String → String → Fields → W → W × Reply)
      → ResolutionRequest
      → W
      → W × (Escape ⊎ ResolutionOutcome)
  unfolding classify_resolution handle_resolution_exception
  submit_resolution execute request w =
      let r =
        execute "/mcp/v1/capabilities/resolve" "capability.resolve" (resolution_payload request)
          w in
      (r.0, resolution_of request (r.1))
