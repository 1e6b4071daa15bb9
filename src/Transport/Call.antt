-- ===== src/Transport/Call.antt =====
-- transport/client.py: the retry loop of `GovernedTransport.execute`, and the call around it.
pub mod Loop
pub mod Allowed
pub mod RequestHeaders
pub mod Trail
pub mod Keys
pub mod Ends
pub mod Outcomes
pub mod Results
pub mod Waits
use keyhole_sdk.Base.{
  ℕ, zero, suc, ◌+◌, ◌-◌, String, Bool, true, false, not, ◌&&◌, Option, none, some, [], ◌∷◌, ◌++◌,
  ltb, truthy, ◌==◌, if◌then◌else◌,
}
use keyhole_sdk.Base.Text.{◌<>◌}
use keyhole_sdk.Base.Json.{Json}
use keyhole_sdk.Transport.Errors.{LastError, no_error, missing_idempotency_key, retry_exhausted}
use keyhole_sdk.Transport.Proof.{
  ClientObservation, executed, replayed, not_sent, TransportProofMetadata, new_proof,
  record_attempt, mark_observation,
}
use keyhole_sdk.Transport.Registry.{
  OperationClass, read_only, write_idempotent_required, naturally_convergent_exempt,
  internal_only_not_exposed, RetryPolicy, no_retry, OperationDescriptor, Registry, get_operation,
}
use keyhole_sdk.Transport.Client.{
  Headers, Response, Reply, HttpRequest, Outside, GovernedTransport, Outcome, returned, raised,
  Verdict, again, stop, success, Run, is_write, key_truthy, max_attempts, build_headers, judge,
}

abbrev pub class_value : OperationClass → String
class_value read_only = "READ_ONLY"
class_value write_idempotent_required = "WRITE_IDEMPOTENT_REQUIRED"
class_value naturally_convergent_exempt = "NATURALLY_CONVERGENT_EXEMPT"
class_value internal_only_not_exposed = "INTERNAL_ONLY_NOT_EXPOSED"

-- The value where it is a non-empty text.
abbrev pub non_empty : Option String → Option String
non_empty none = none
non_empty (some s) = if truthy s then some s else none

-- The replay metadata of a successful response.
unfoldable pub observe_success : Response → TransportProofMetadata → TransportProofMetadata
observe_success r p =
    let q : TransportProofMetadata = elim (non_empty (r.header "X-Request-Id")) [
      | none ↦ p
      | some id ↦ record p { server_request_id = some id }
    ] in
    elim (non_empty (r.header "X-Original-Request-Id")) [
      | none ↦ mark_observation executed q
      | some id ↦ mark_observation replayed (record q { original_request_id = some id })
    ]

module _ {S : Type 0} where
  -- `sleep_for_backoff`
  unfoldable pub sleep_for_backoff : ℕ → Run S → Run S
  sleep_for_backoff delay s = record s {
    sleeps = if ltb 0 delay then s.sleeps ++ delay ∷ [] else s.sleeps;
  }

  unfoldable pub mark_run : ClientObservation → Run S → Run S
  mark_run o s = record s { proof = mark_observation o s.proof }

  -- The response's data with the final proof trail.
  unfoldable pub succeed : Json → Response → Run S → Outcome × Run S
  succeed data_json r s =
      let p = observe_success r s.proof in
      (
        returned (record {
          data_json = data_json;
          status_code = r.status_code;
          proof = p;
          response_headers = r.headers;
        }),
        record s { proof = p },
      )

module _ {S : Type 0} (t : GovernedTransport) (o : Outside S) (key : Option String)
    (policy : RetryPolicy) (limit : ℕ) (method path : String) where
  unfoldable pub request_at : ℕ → Headers → Run S → HttpRequest
  request_at attempt caller s = record {
    method = method;
    path = path;
    headers = build_headers t key (o.uuid s.uuids) attempt caller;
  }

  -- One attempt up to the reply: mint an id, record the attempt, send.
  unfoldable pub send_attempt : ℕ → Headers → Run S → Run S
  send_attempt attempt caller s =
      let request = request_at attempt caller s in
      let (reply, world') = o.send s.world request in
      record {
        world = world';
        uuids = s.uuids + 1;
        proof =
            record_attempt attempt (o.uuid s.uuids) (o.now s.uuids)
              (if attempt == 1 then "" else "retry #" <> o.show_int (attempt - 1)) s.proof;
        requests = s.requests ++ request ∷ [];
        replies = s.replies ++ reply ∷ [];
        sleeps = s.sleeps;
      }

  unfoldable pub reply_at : ℕ → Headers → Run S → Reply
  reply_at attempt caller s = (o.send s.world (request_at attempt caller s)).0

  unfoldable pub verdict_at : ℕ → Headers → LastError → Run S → Verdict
  unfolding reply_at
  verdict_at attempt caller last s =
      judge t.retry_config o.uniform o.parse_float key policy limit attempt (o.uuid s.uuids)
        (reply_at attempt caller s) last

  -- `for attempt in range(…)` with `left` rounds to go. The caller's headers are popped from the
  -- keyword arguments, so that later rounds find none.
  unfoldable pub attempts_from : ℕ → ℕ → Headers → LastError → Run S → Outcome × Run S
  attempts_from zero attempt caller last s =
      (raised (retry_exhausted s.proof.request_id key limit last), mark_run not_sent s)
  attempts_from (suc left) attempt caller last s =
      let s' = send_attempt attempt caller s in
      elim (verdict_at attempt caller last s) [
        | again delay last' ↦ attempts_from left (attempt + 1) [] last' (sleep_for_backoff delay s')
        | stop e observation ↦ (raised e, mark_run observation s')
        | success data_json r ↦ succeed data_json r s'
      ]

abbrev pub policy_of : Option OperationDescriptor → RetryPolicy
policy_of none = no_retry
policy_of (some d) = d.retry_policy

abbrev pub class_of : Option OperationDescriptor → String
class_of none = "UNREGISTERED"
class_of (some d) = class_value d.operation_class

abbrev pub requires_key : Option OperationDescriptor → Bool
requires_key none = false
requires_key (some d) = d.idempotency_required

abbrev pub is_write_operation : Option OperationDescriptor → Bool
is_write_operation none = false
is_write_operation (some d) = is_write d.operation_class

-- The key after the auto-generation, and the UUIDs used up by it.
unfoldable pub mint_key : (ℕ → String) → Bool → Option String → Option String × ℕ
mint_key uuid required key =
    if required && not (key_truthy key) then (some (uuid 0), 1) else (key, 0)

abbrev pub start_run : {S : Type 0} → S → ℕ → TransportProofMetadata → Run S
start_run world used p = record {
  world = world;
  uuids = used;
  proof = p;
  requests = [];
  replies = [];
  sleeps = [];
}

unfoldable pub execute :
    {S : Type 0}
    → GovernedTransport
    → Outside S
    → Registry
    → String
    → Option String
    → String
    → String
    → Headers
    → S
    → Outcome × Run S
execute t o registry operation_name given method path caller world =
    let descriptor = get_operation operation_name registry in
    let (key, used) = mint_key o.uuid (requires_key descriptor) given in
    let s = start_run world used (new_proof key (class_of descriptor) operation_name) in
    let policy = policy_of descriptor in
    let limit = max_attempts t.retry_config policy in
    let run = attempts_from t o key policy limit method path limit 1 caller no_error s in
    if is_write_operation descriptor && not (key_truthy key)
    then (raised (missing_idempotency_key operation_name), s)
    else run
