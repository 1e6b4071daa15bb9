-- ===== src/Transport/Call/Outcomes.antt =====
-- The outcome of a call against the table of statuses.
use keyhole_sdk.Base.{
  ℕ, ◌+◌, ap, ◌∙◌, ◌<◌, ◌≡◌, refl, sym, String, Bool, false, ◌&&◌, ◌||◌, Option, none, some, List,
  [], ◌∷◌, ◌++◌, arith, Bool-cases, inl, inr, ◌⊎◌, ltb, leb, ◌==◌, if◌then◌else◌, All,
}
use keyhole_sdk.Base.Json.{Json, obj}
use keyhole_sdk.Base.Int.{ℤ}
use keyhole_sdk.Transport.Errors.{LastError, TransportError, retry_exhausted, idempotency_conflict}
use keyhole_sdk.Transport.Proof.{ClientObservation}
use keyhole_sdk.Transport.Registry.{RetryPolicy, Registry, get_operation}
use keyhole_sdk.Transport.Retry.{
  RetryConfig, is_retryable_status, is_conflict_status, is_rate_limited,
}
use keyhole_sdk.Transport.Client.{
  Headers, Response, Reply, failed, answered, Outside, GovernedTransport, Outcome, returned, raised,
  stop, success, Run, max_attempts, client_error, final_response, judge_response, judge,
}
use keyhole_sdk.Transport.Call.{
  mark_run, succeed, send_attempt, reply_at, verdict_at, policy_of, execute, mint_key, requires_key,
}
use keyhole_sdk.Transport.Errors.{
  missing_idempotency_key, transport_failed, rate_limited, runtime_unavailable, public_endpoint,
  schema_invalid, attribute_error,
}
use keyhole_sdk.Transport.Call.Allowed.{retries_allowed, is_unkeyed, max_attempts_lem}
use keyhole_sdk.Transport.Call.Ends.{IsTransient, Ending, KeyMissing, execute-ends}

-- The ways in which a call can end.
pub data End : Type 0 where
  key_missing conflicting limited exhausted unknown unavailable refused malformed unreadable : End
  answer : End

abbrev pub end_of : Outcome → End
end_of (returned res) = answer
end_of (raised (missing_idempotency_key op)) = key_missing
end_of (raised (idempotency_conflict id k d)) = conflicting
end_of (raised (rate_limited id k after)) = limited
end_of (raised (retry_exhausted id k n l)) = exhausted
end_of (raised (transport_failed id k)) = unknown
end_of (raised (runtime_unavailable status)) = unavailable
end_of (raised (public_endpoint m status d)) = refused
end_of (raised attribute_error) = malformed
end_of (raised schema_invalid) = unreadable

-- Whether the body of a refusal has the method `get`.
abbrev refusal : Option Json → End
refusal none = refused
refusal (some (obj fs)) = refused
refusal (some _) = malformed

abbrev body_end : Option Json → End
body_end none = unreadable
body_end (some j) = answer

-- The end that the last reply calls for, by its status and whether retries were allowed.
abbrev pub status_end : Bool → ℕ → Option Json → End
status_end retried status body =
    if status == 409
    then conflicting
    else if status == 429
    then limited
    else if retried && (status == 408 || (leb 502 status && leb status 504))
    then exhausted
    else if leb 500 status
    then unavailable
    else if leb 400 status
    then refusal body
    else body_end body

abbrev pub expected_end : ℕ → Reply → End
expected_end limit (failed e) = unknown
expected_end limit (answered r) = status_end (ltb 1 limit) r.status_code r.json

client_error-end : (r : Response) → end_of (raised (client_error r)) ≡ refusal r.json
unfolding client_error
client_error-end r = ground arith

final_response-stop :
    (r : Response) (e : TransportError) (x : ClientObservation)
    → final_response r ≡ stop e x
    → end_of (raised e) ≡ (
        if leb 500 r.status_code
        then unavailable
        else if leb 400 r.status_code
        then refusal r.json
        else body_end r.json)
unfolding final_response
final_response-stop r e x h = ground (arith, client_error-end r)

final_response-success :
    (r r' : Response) (j : Json)
    → final_response r ≡ success j r'
    → (r' ≡ r) × (r.json ≡ some j) × (r.status_code < 400)
unfolding final_response
final_response-success r r' j h = ground arith

-- Past a rate limit, the retryable statuses are 408 and 502 to 504.
retryable_table :
    (status : ℕ)
    → (status == 429) ≡ false
    → is_retryable_status status ≡ (status == 408 || (leb 502 status && leb status 504))
unfolding is_retryable_status
retryable_table status h = ground arith

module _ (config : RetryConfig) (u : ℕ → ℕ → ℕ) (p : String → Option ℤ) (key : Option String)
    (policy : RetryPolicy) (limit n : ℕ) (id : String) (last : LastError) where
  judge_response-stop :
      (r : Response) (e : TransportError) (x : ClientObservation)
      → judge_response config u p key policy limit n id r last ≡ stop e x
      → end_of (raised e) ≡ expected_end limit (answered r)
  unfolding judge_response is_conflict_status is_rate_limited
  judge_response-stop r e x h = elim (Bool-cases (r.status_code == 409)) [
    | inl a ↦ rw a (ground arith)
    | inr a ↦ elim (Bool-cases (r.status_code == 429)) [
      | inl b ↦ rw (a, b) (ground arith)
      | inr b ↦
          rw (a, b, ← retryable_table r.status_code b) (ground (arith, final_response-stop r e x))
    ]
  ]

  judge-stop :
      (q : Reply) (e : TransportError) (x : ClientObservation)
      → judge config u p key policy limit n id q last ≡ stop e x
      → end_of (raised e) ≡ expected_end limit q
  unfolding judge
  judge-stop (failed m) e x h = ground arith
  judge-stop (answered r) e x h = judge_response-stop r e x h

  pub judge-success :
      (q : Reply) (j : Json) (r' : Response)
      → judge config u p key policy limit n id q last ≡ success j r'
      → (q ≡ answered r') × (r'.json ≡ some j) × (r'.status_code < 400)
  unfolding judge judge_response is_retryable_status is_conflict_status is_rate_limited
  judge-success (failed m) j r' h = ground arith
  judge-success (answered r) j r' h = ground (arith, final_response-success r r' j)

status_end-low :
    (retried : Bool) (status : ℕ) (j : Json)
    → status < 400
    → status_end retried status (some j) ≡ answer
status_end-low retried status j h = ground arith

module _ {S : Type 0} (t : GovernedTransport) (o : Outside S) (key : Option String)
    (policy : RetryPolicy) (limit : ℕ) (method path : String) where
  pub ending-replies :
      (out : Outcome × Run S)
      → (g : Ending t o key policy limit method path out)
      → out.1.replies
        ≡ g.before.replies
          ++ reply_at t o key policy limit method path g.number g.caller g.before ∷ []
  unfolding succeed mark_run send_attempt reply_at
  ending-replies out g = elim g.ended [
    | inl (e, x, v, same) ↦ rw same refl
    | inr (j, r, v, same) ↦ rw same refl
  ]

  ending-end :
      (out : Outcome × Run S)
      → (g : Ending t o key policy limit method path out)
      → end_of out.0
        ≡ expected_end limit (reply_at t o key policy limit method path g.number g.caller g.before)
  unfolding verdict_at succeed
  ending-end out g = elim g.ended [
    | inl (e, x, v, same) ↦ rw same (
        judge-stop t.retry_config o.uniform o.parse_float key policy limit g.number
          (o.uuid g.before.uuids) g.last _ e x v)
    | inr (j, r, v, same) ↦
        let (q, body, low) =
          judge-success t.retry_config o.uniform o.parse_float key policy limit g.number
            (o.uuid g.before.uuids) g.last _ j r v in
        rw (same, q, succeed, body) (sym (status_end-low (ltb 1 limit) r.status_code j low))
  ]

module _ {S : Type 0} (t : GovernedTransport) (o : Outside S) (registry : Registry) (name : String)
    (given : Option String) (method path : String) (caller : Headers) (world : S) where
  abbrev limit_of : ℕ
  limit_of = max_attempts t.retry_config (policy_of (get_operation name registry))

  expected_end-allowed :
      (q : Reply)
      → expected_end limit_of q
        ≡ expected_end (1 + retries_allowed t.retry_config (get_operation name registry)) q
  expected_end-allowed q =
      ap (λ limit. expected_end limit q)
        (max_attempts_lem t.retry_config (get_operation name registry))

  -- A call of a write operation that is given no key, and for which none is minted, raises that the key
  -- is missing, and sends nothing. Every other call ends as the table of statuses says for its last
  -- reply, by whether the operation and the configuration allow a retry, and every earlier reply was a
  -- lost connection or had one of the statuses 408, 429, 502, 503 and 504.
  pub execute-end :
      let out = execute t o registry name given method path caller world in
      KeyMissing t o registry name given method path caller world out
      ⊎ ((is_unkeyed (o.uuid 0) (get_operation name registry) given ≡ false)
          × ((earlier : List Reply) × (last : Reply) × (out.1.replies ≡ earlier ++ last ∷ [])
              × All IsTransient earlier
              × (end_of out.0
                  ≡ expected_end
                      (1 + retries_allowed t.retry_config (get_operation name registry))
                      last)))
  execute-end = elim (execute-ends t o registry name given method path caller world) [
    | inl missing ↦ inl missing
    | inr (keyed, g) ↦ inr (
      keyed,
      (
        g.before.replies,
        _,
        ending-replies t o _ _ limit_of method path _ g,
        g.quiet,
        ending-end t o _ _ limit_of method path _ g
            ∙ expected_end-allowed (
                reply_at t o (mint_key o.uuid (requires_key (get_operation name registry)) given).0
                  (policy_of (get_operation name registry)) limit_of method path g.number g.caller
                  g.before),
      ),
    )
  ]
