-- ===== src/RunDispatch/Honest.antt =====
-- run_dispatch/dispatcher.py: what an outcome says of the call.
use keyhole_sdk.Base.{
  ℕ, ◌≡◌, refl, ap, String, Bool, true, false, not, ◌||◌, ◌⊎◌, inl, inr, Option, [], ◌∷◌, elem,
  is_empty, Bool-cases, if◌then◌else◌, ◌==◌,
}
use keyhole_sdk.Base.Json.{Json, null, bool, num, str, arr, obj, Fields}
use keyhole_sdk.RunDispatch.Repair.{map_repair_guidance-not_empty}
use keyhole_sdk.RunDispatch.{
  OutcomeStatus, success, accepted, deferred, failed, transport_error, RunRequest, RaisedError,
  Reply, returned, raised, RunOutcome, Escape, status_json, is_async, is_refused, answered, refused,
  to_payload, outcome_by, outcome_for, classify_outcome, handle_transport_exception, outcome_of,
  dispatch_run,
}

abbrev pub is_success : OutcomeStatus → Bool
is_success success = true
is_success _ = false

-- The outcome was not answered by the boundary.
abbrev pub is_unanswered : OutcomeStatus → Bool
is_unanswered failed = true
is_unanswered transport_error = true
is_unanswered _ = false

-- The status is one that says that the run is not done, or was not taken.
abbrev pub is_pending : ℕ → String → Bool
is_pending code status =
    (code == 202 || elem status ("accepted" ∷ "pending" ∷ []))
    || elem status ("deferred" ∷ [])
    || elem status ("rejected" ∷ "error" ∷ "failed" ∷ [])

-- The outcome is of the request.
abbrev pub IsOf : {P : Type 0} → RunRequest → RunOutcome P → Type 0
IsOf request o =
    (o.run_type ≡ request.run_type)
    × (o.repo_name ≡ request.repo_name)
    × (o.shadow ≡ request.shadow)
    × (o.correlation_id ≡ request.correlation_id)

-- An outcome of an exception: unanswered, with a next step. An outcome of an answer: answered, a success
-- exactly if the status, a text, does not say that the run is pending, deferred or refused, and the
-- code is not 202; it has the answer's code and body.
abbrev pub IsHonest :
    {P : Type 0} → (String → String) → RunRequest → Reply P → RunOutcome P → Type 0
IsHonest lower request (raised e) o =
    IsOf request o × (is_unanswered (o.status) ≡ true) × (is_empty (o.repair_guidance) ≡ false)
IsHonest lower request (returned code d proof) o =
    IsOf request o
    × (is_unanswered (o.status) ≡ false)
    × (o.http_status ≡ code)
    × (o.response_data ≡ d)
    × ((s : String) × (status_json d ≡ str s)
        × (is_success (o.status) ≡ not (is_pending code (lower s))))

abbrev pub is_text : Json → Bool
is_text (str s) = true
is_text _ = false

module _ {P : Type 0} (lower : String → String) (show : Json → String) where
  outcome_by-IsHonest :
      (request : RunRequest) (code : ℕ) (d : Fields) (proof : P) (s : String)
      → status_json d ≡ str s
      → IsHonest lower request
          (returned code d proof)
          (outcome_by lower show request code d proof (lower s))
  unfolding outcome_by answered refused
  outcome_by-IsHonest request code d proof s e =
      let tests =
        by_tests (is_async code (lower s)) (elem (lower s) ("deferred" ∷ []))
          (is_refused (lower s)) in
      (tests.0, tests.1, tests.2, tests.3, (s, e, tests.4))
    where
      chosen : Bool → Bool → Bool → RunOutcome P
      chosen a b c =
          if a
          then answered lower show request code d proof accepted
          else if b
          then answered lower show request code d proof deferred
          else if c
          then refused lower show request code d proof
          else answered lower show request code d proof success

      by_tests :
          (a b c : Bool)
          → IsOf request (chosen a b c)
            × (is_unanswered ((chosen a b c).status) ≡ false)
            × ((chosen a b c).http_status ≡ code)
            × ((chosen a b c).response_data ≡ d)
            × (is_success ((chosen a b c).status) ≡ not (a || b || c))
      by_tests true b c = ((refl, refl, refl, refl), refl, refl, refl, refl)
      by_tests false true c = ((refl, refl, refl, refl), refl, refl, refl, refl)
      by_tests false false true = ((refl, refl, refl, refl), refl, refl, refl, refl)
      by_tests false false false = ((refl, refl, refl, refl), refl, refl, refl, refl)

  handle_transport_exception-IsHonest :
      (proof_of : String → Option String → P) (request : RunRequest) (e : RaisedError)
      → IsHonest lower request (raised e) (handle_transport_exception lower show proof_of request e)
  unfolding handle_transport_exception
  handle_transport_exception-IsHonest proof_of request e = (
    (refl, refl, refl, refl),
    elim (Bool-cases (e.is_unreached)) [ inl h ↦ simp h refl | inr h ↦ simp h refl ],
    map_repair_guidance-not_empty (e.error_class),
  )

  -- The outcome is honest, or the status of the answer is no text, and an exception escapes.
  abbrev pub Ends : RunRequest → Reply P → Escape ⊎ RunOutcome P → Type 0
  Ends request r (inr o) = IsHonest lower request r o
  Ends request (returned code d proof) (inl e) = is_text (status_json d) ≡ false
  Ends request (raised e) (inl f) = ⊥

  outcome_of-Ends :
      (proof_of : String → Option String → P) (request : RunRequest) (r : Reply P)
      → Ends request r (outcome_of lower show proof_of request r)
  unfolding classify_outcome
  outcome_of-Ends proof_of request (raised e) =
      handle_transport_exception-IsHonest proof_of request e
  outcome_of-Ends proof_of request (returned code d proof) = for_status (status_json d) refl
    where
      for_status :
          (v : Json)
          → status_json d ≡ v
          → Ends request (returned code d proof) (outcome_for lower show request code d proof v)
      for_status (str s) e = outcome_by-IsHonest request code d proof s e
      for_status null e = ap is_text e
      for_status (bool b) e = ap is_text e
      for_status (num n) e = ap is_text e
      for_status (arr vs) e = ap is_text e
      for_status (obj f) e = ap is_text e

  -- A dispatch sends one request and ends with an outcome of the request. Where the call raises, the
  -- outcome is a failure that has a next step. Where it is answered, the outcome is none of the two
  -- kinds of failure, has the code and the body of the answer, and is a success exactly if the code is
  -- not 202 and the status says neither that the run is accepted, pending or deferred nor that it is
  -- rejected, failed or an error. Where the status of an answer is no text, an exception escapes.
  pub dispatch_run-Ends :
      {W : Type 0} (proof_of : String → Option String → P)
      (execute : String → String → Fields → W → W × Reply P) (request : RunRequest) (w : W)
      → let r = execute "/mcp/v1/runs/start" "run.start" (to_payload request) w in
        let end = dispatch_run lower show proof_of execute request w in
        (end.0 ≡ r.0) × Ends request (r.1) (end.1)
  unfolding dispatch_run
  dispatch_run-Ends proof_of execute request w =
      let r = execute "/mcp/v1/runs/start" "run.start" (to_payload request) w in
      (refl, outcome_of-Ends proof_of request (r.1))
