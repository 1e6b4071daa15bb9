-- ===== src/Transport/Call/Results.antt =====
-- What a result and a RetryExhaustedError say of the call that they end.
use keyhole_sdk.Base.{
  ℕ, ◌≤◌, ◌<◌, ◌≡◌, ◌≢◌, sym, ap, ◌∙◌, String, Bool, Option, some, List, [], ◌∷◌, ◌++◌, arith,
  length, length-snoc, inl, inr, if◌then◌else◌,
}
use keyhole_sdk.Base.Json.{Json}
use keyhole_sdk.Base.Int.{ℤ}
use keyhole_sdk.Transport.Errors.{LastError, retry_exhausted}
use keyhole_sdk.Transport.Proof.{
  ClientObservation, replayed, executed, TransportProofMetadata, mark_observation,
}
use keyhole_sdk.Transport.Registry.{RetryPolicy, Registry, get_operation}
use keyhole_sdk.Transport.Retry.{RetryConfig}
use keyhole_sdk.Transport.Client.{
  Headers, Response, Reply, failed, answered, Outside, GovernedTransport, TransportResult, Outcome,
  returned, raised, stop, Run, max_attempts, client_error, final_response, judge_response, judge,
}
use keyhole_sdk.Transport.Call.{
  mark_run, observe_success, succeed, send_attempt, reply_at, verdict_at, policy_of, execute,
}
use keyhole_sdk.Base.{is_some}
use keyhole_sdk.Transport.Call.{non_empty}
use keyhole_sdk.Transport.Call.Ends.{Ending, execute-ends}
use keyhole_sdk.Transport.Call.Outcomes.{judge-success, ending-replies}

-- Whether a response carries a non-empty X-Original-Request-Id.
abbrev pub is_replay : Response → Bool
is_replay r = is_some (non_empty (r.header "X-Original-Request-Id"))

observe_success-observation :
    (r : Response) (p : TransportProofMetadata)
    → (observe_success r p).final_client_observation ≡ (if is_replay r then replayed else executed)
unfolding observe_success mark_observation
observe_success-observation r p = ground arith

-- What a result says of the last response.
pub record Reports {S : Type 0} (out : Outcome × Run S) (res : TransportResult) (r : Response)
    : Type 0 where
  pub low : r.status_code < 400
  pub body : r.json ≡ some res.data_json
  pub status : res.status_code ≡ r.status_code
  pub trail : res.proof ≡ out.1.proof
  pub observed : res.proof.final_client_observation ≡ (if is_replay r then replayed else executed)

succeed-Reports :
    {S : Type 0} (j : Json) (r : Response) (s : Run S) (res : TransportResult)
    → (succeed j r s).0 ≡ returned res
    → r.json ≡ some j
    → r.status_code < 400
    → Reports (succeed j r s) res r
unfolding succeed
succeed-Reports j r s res e body low = record {
  low = low;
  body = ground arith;
  status = ground arith;
  trail = ground arith;
  observed = ground (arith, observe_success-observation r s.proof);
}

final_response-ne-exhausted :
    (r : Response) (id : String) (k : Option String) (c : ℕ) (l : LastError) (x : ClientObservation)
    → final_response r ≢ stop (retry_exhausted id k c l) x
unfolding final_response client_error
final_response-ne-exhausted r id k c l x = ground arith

judge-exhausted :
    (config : RetryConfig) (u : ℕ → ℕ → ℕ) (p : String → Option ℤ) (key : Option String)
    (policy : RetryPolicy) (limit n : ℕ) (id : String) (q : Reply) (last : LastError) (id' : String)
    (k : Option String) (c : ℕ) (l : LastError) (x : ClientObservation)
    → judge config u p key policy limit n id q last ≡ stop (retry_exhausted id' k c l) x
    → (c ≡ n) × (limit ≤ n) × (1 < limit)
unfolding judge judge_response
judge-exhausted config u p key policy limit n id (failed e) last id' k c l x h = ground arith
judge-exhausted config u p key policy limit n id (answered r) last id' k c l x h =
    ground (arith, final_response-ne-exhausted r id' k c l x)

module _ {S : Type 0} (t : GovernedTransport) (o : Outside S) (key : Option String)
    (policy : RetryPolicy) (limit : ℕ) (method path : String) where
  ending-returned :
      (out : Outcome × Run S) (res : TransportResult)
      → (g : Ending t o key policy limit method path out) → out.0 ≡ returned res
      → (r : Response) × (reply_at t o key policy limit method path g.number g.caller g.before
          ≡ answered r)
        × Reports out res r
  unfolding verdict_at
  ending-returned out res g h = elim g.ended [
    | inl (e, x, v, same) ↦ cc (ap (λ (u : Outcome × Run S). u.0) same)
    | inr (j, r, v, same) ↦
        let (q, body, low) =
          judge-success t.retry_config o.uniform o.parse_float key policy limit g.number
            (o.uuid g.before.uuids) g.last _ j r v in
        (
          r,
          q,
          rw same (
              succeed-Reports j r _ res (ap (λ (u : Outcome × Run S). u.0) (sym same) ∙ h) body
                low),
        )
  ]

  ending-length :
      (out : Outcome × Run S)
      → (g : Ending t o key policy limit method path out) → length out.1.requests ≡ g.number
  unfolding send_attempt mark_run succeed
  ending-length out g = elim g.ended [
    | inl (e, x, v, same) ↦ rw same (omega (arith, length-snoc {0}, g.counted))
    | inr (j, r, v, same) ↦ rw same (omega (arith, length-snoc {0}, g.counted))
  ]

  ending-exhausted :
      (out : Outcome × Run S) (id : String) (k : Option String) (c : ℕ) (l : LastError)
      → Ending t o key policy limit method path out
      → out.0 ≡ raised (retry_exhausted id k c l)
      → (c ≡ limit) × (length out.1.requests ≡ c) × (1 < limit)
  unfolding verdict_at succeed
  ending-exhausted out id k c l g h = elim g.ended [
    | inl (e, x, v, same) ↦
        let same_e : e ≡ retry_exhausted id k c l = cc (ap (λ (u : Outcome × Run S). u.0) same) in
        let (now, full, many) =
          judge-exhausted t.retry_config o.uniform o.parse_float key policy limit g.number
            (o.uuid g.before.uuids) _ g.last id k c l x (rw same_e at v) in
        (omega (arith, g.within), omega (arith, ending-length out g), many)
    | inr (j, r, v, same) ↦ cc (ap (λ (u : Outcome × Run S). u.0) same)
  ]

module _ {S : Type 0} (t : GovernedTransport) (o : Outside S) (registry : Registry) (name : String)
    (given : Option String) (method path : String) (caller : Headers) (world : S) where
  -- A result is the last response's: its status is below 400, its parsed body and its status are
  -- the result's, the result's proof trail is that of the call, and the trail says `replayed` when
  -- the response names an original request and `executed` otherwise.
  pub execute-returned :
      (res : TransportResult)
      → (execute t o registry name given method path caller world).0 ≡ returned res
      → (earlier : List Reply) × (r : Response) × ((execute t o registry name given method path
            caller world).1.replies
          ≡ earlier ++ answered r ∷ [])
        × Reports (execute t o registry name given method path caller world) res r
  execute-returned res h = elim (execute-ends t o registry name given method path caller world) [
    | inl (w, e, none_sent) ↦ cc (e, h)
    | inr (keyed, g) ↦
        let (r, q, reports) = ending-returned t o _ _ _ method path _ res g h in
        (
          g.before.replies,
          r,
          ending-replies t o _ _ _ method path _ g ∙ ap (λ q. g.before.replies ++ q ∷ []) q,
          reports,
        )
  ]

  -- RetryExhaustedError is raised only where more than one attempt is allowed, with all of them
  -- made and counted.
  execute-exhausted :
      (id : String) (k : Option String) (c : ℕ) (l : LastError)
      → (execute t o registry name given method path caller world).0
        ≡ raised (retry_exhausted id k c l)
      → (c ≡ max_attempts t.retry_config (policy_of (get_operation name registry)))
        × (length (execute t o registry name given method path caller world).1.requests ≡ c)
        × (1 < max_attempts t.retry_config (policy_of (get_operation name registry)))
  execute-exhausted id k c l h =
      elim (execute-ends t o registry name given method path caller world) [
        | inl (w, e, none_sent) ↦ cc (e, h)
        | inr (keyed, g) ↦ ending-exhausted t o _ _ _ method path _ id k c l g h
      ]
