-- ===== src/Capability/Resolver/Closed.antt =====
-- capability/resolver.py: when a resolution picks a provider.
use keyhole_sdk.Base.{
  ℕ, ◌≡◌, refl, String, Bool, true, false, not, ◌&&◌, ◌||◌, ◌⊎◌, inl, inr, Option, none, some, List,
  [], ◌∷◌, elem, is_some, str_eq, leb, ◌==◌, Bool-cases, if◌then◌else◌,
}
use keyhole_sdk.Base.Json.{Json, null, bool, num, str, arr, obj, Fields, get_field}
use keyhole_sdk.Capability.Outcomes.{
  ResolutionRequest, ResolutionOutcome, Escape, outcome_with, ambiguous_outcome,
  incompatible_outcome, not_found_outcome, resolved_with, resolved_outcome, resolution_payload,
}
use keyhole_sdk.Capability.Resolver.{
  Reply, returned, raised, classify_error, outcome_by, outcome_for, resolution_of,
  submit_resolution,
}

-- The outcome picks a provider just if the test holds, and then says that it is resolved.
abbrev pub PicksIf : Bool → Escape ⊎ ResolutionOutcome → Type 0
PicksIf picks (inl e) = Unit
PicksIf picks (inr o) = (is_some (o.resolved) ≡ picks) × (str_eq (o.status) "resolved" ≡ picks)

-- The statuses that do not pick.
abbrev pub known_refusals : List String
known_refusals =
    "accepted" ∷ "pending" ∷ "deferred" ∷ "ambiguous" ∷ "incompatible" ∷ "not_found" ∷ []

resolved_with-PicksIf :
    (request : ResolutionRequest) (code : ℕ) (d : Fields) (o : Option Json)
    → PicksIf true (resolved_with request code d o)
unfolding outcome_with
resolved_with-PicksIf request code d none = (refl, refl)
resolved_with-PicksIf request code d (some (obj r)) = (refl, refl)
resolved_with-PicksIf request code d (some null) = tt
resolved_with-PicksIf request code d (some (bool b)) = tt
resolved_with-PicksIf request code d (some (num n)) = tt
resolved_with-PicksIf request code d (some (str s)) = tt
resolved_with-PicksIf request code d (some (arr vs)) = tt

classify_error-PicksIf :
    (request : ResolutionRequest) (code : ℕ) (d : Fields) (status : String)
    → PicksIf false (inr (classify_error request code d status))
unfolding classify_error ambiguous_outcome outcome_with
classify_error-PicksIf request code d status = elim (Bool-cases (str_eq status "ambiguous")) [
  | inl e ↦ (simp e refl, simp e refl)
  | inr e ↦ (simp e refl, simp e refl)
]

outcome_by-PicksIf :
    (request : ResolutionRequest) (code : ℕ) (d : Fields) (error_status status : String)
    → PicksIf
        (not (leb 400 code) && not (code == 202) && not (elem status known_refusals))
        (outcome_by request code d error_status status)
unfolding outcome_by ambiguous_outcome incompatible_outcome not_found_outcome outcome_with
    resolved_outcome
outcome_by-PicksIf request code d error_status status =
    by_tests (leb 400 code) (code == 202) (str_eq status "accepted") (str_eq status "pending")
      (str_eq status "deferred") (str_eq status "ambiguous") (str_eq status "incompatible")
      (str_eq status "not_found")
  where
    by_tests :
        (err code_202 acc pen dfr amb inc nof : Bool)
        → PicksIf
            (not err
              && not code_202
              && not (acc || (pen || (dfr || (amb || (inc || (nof || false)))))))
            (if err
              then inr (classify_error request code d error_status)
              else if code_202 || (acc || (pen || false))
              then inr (outcome_with request code d "accepted")
              else if dfr
              then inr (outcome_with request code d "deferred")
              else if amb
              then inr (ambiguous_outcome request code d)
              else if inc
              then inr (incompatible_outcome request code d)
              else if nof
              then inr (not_found_outcome request code d)
              else resolved_with request code d (get_field "resolved" d))
    by_tests true b c e f g h i = classify_error-PicksIf request code d error_status
    by_tests false true c e f g h i = (refl, refl)
    by_tests false false true e f g h i = (refl, refl)
    by_tests false false false true f g h i = (refl, refl)
    by_tests false false false false true g h i = (refl, refl)
    by_tests false false false false false true h i = (refl, refl)
    by_tests false false false false false false true i = (refl, refl)
    by_tests false false false false false false false true = (refl, refl)
    by_tests false false false false false false false false =
        resolved_with-PicksIf request code d (get_field "resolved" d)

abbrev pub status_of : (String → String) → Option Json → String
status_of lower (some (str s)) = lower s
status_of lower _ = lower ""

outcome_for-PicksIf :
    (lower : String → String) (request : ResolutionRequest) (code : ℕ) (d : Fields)
    (o : Option Json)
    → PicksIf
        (not (leb 400 code) && not (code == 202) && not (elem (status_of lower o) known_refusals))
        (outcome_for lower request code d o)
outcome_for-PicksIf lower request code d none =
    outcome_by-PicksIf request code d (lower "rejected") (lower "")
outcome_for-PicksIf lower request code d (some (str s)) =
    outcome_by-PicksIf request code d (lower s) (lower s)
outcome_for-PicksIf lower request code d (some null) = tt
outcome_for-PicksIf lower request code d (some (bool b)) = tt
outcome_for-PicksIf lower request code d (some (num n)) = tt
outcome_for-PicksIf lower request code d (some (arr vs)) = tt
outcome_for-PicksIf lower request code d (some (obj e)) = tt

-- Whether a reply lets a provider be picked.
abbrev pub picks : (String → String) → Reply → Bool
picks lower (raised error_class message) = false
picks lower (returned code d) =
    not (leb 400 code)
    && not (code == 202)
    && not (elem (status_of lower (get_field "status" d)) known_refusals)

-- The outcome of a resolution, where no exception escapes, picks a provider, and says that it is resolved,
-- just if the call is answered with a code below 400 other than 202, and the status of the answer is
-- none of accepted, pending, deferred, ambiguous, incompatible and not_found.
pub submit_resolution-PicksIf :
    {W : Type 0} (lower : String → String) (execute : String → String → Fields → W → W × Reply)
    (request : ResolutionRequest) (w : W)
    → let r =
        execute "/mcp/v1/capabilities/resolve" "capability.resolve"
          (resolution_payload request)
          w in
      PicksIf (picks lower (r.1)) ((submit_resolution lower execute request w).1)
unfolding submit_resolution
submit_resolution-PicksIf lower execute request w =
    by_reply (
      (execute "/mcp/v1/capabilities/resolve" "capability.resolve" (resolution_payload request)
        w).1)
  where
    by_reply : (r : Reply) → PicksIf (picks lower r) (resolution_of lower request r)
    by_reply (raised error_class message) = (refl, refl)
    by_reply (returned code d) = outcome_for-PicksIf lower request code d (get_field "status" d)
