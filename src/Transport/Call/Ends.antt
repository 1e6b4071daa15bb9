-- ===== src/Transport/Call/Ends.antt =====
-- How a call ends: every reply before the last one is transient, and the last one alone decides the
-- outcome.
use keyhole_sdk.Base.{
  ℕ, zero, suc, ◌+◌, ◌∙◌, sym, ◌≤◌, ◌<◌, ◌≡◌, ◌≢◌, refl, String, true, false, not, ◌&&◌, Option, [],
  arith, length, length-snoc, Bool-cases, inl, inr, ◌⊎◌, All, All-snoc,
}
use keyhole_sdk.Base.Json.{Json}
use keyhole_sdk.Base.Int.{ℤ}
use keyhole_sdk.Transport.Errors.{LastError, no_error, TransportError, missing_idempotency_key}
use keyhole_sdk.Transport.Proof.{ClientObservation}
use keyhole_sdk.Transport.Registry.{RetryPolicy, Registry, get_operation}
use keyhole_sdk.Transport.Retry.{
  RetryConfig, is_retryable_status, is_conflict_status, is_rate_limited,
}
use keyhole_sdk.Transport.Client.{
  Headers, Response, Reply, failed, answered, Outside, GovernedTransport, Outcome, raised, again,
  stop, success, Verdict-cases, Run, key_truthy, max_attempts, final_response, judge_response,
  judge,
}
use keyhole_sdk.Transport.Call.Allowed.{is_unkeyed, is_unkeyed_lem}
use keyhole_sdk.Transport.Call.{
  sleep_for_backoff, mark_run, succeed, send_attempt, reply_at, verdict_at, attempts_from,
  policy_of, requires_key, is_write_operation, mint_key, execute,
}

-- A reply after which the code may send the request again.
abbrev pub IsTransient : Reply → Type 0
IsTransient (failed e) = Unit
IsTransient (answered r) = is_retryable_status r.status_code ≡ true

pub final_response-ne-again : (r : Response) (d : ℕ) (l : LastError) → final_response r ≢ again d l
unfolding final_response
final_response-ne-again r d l = ground arith

judge_response-again :
    (config : RetryConfig) (u : ℕ → ℕ → ℕ) (p : String → Option ℤ) (key : Option String)
    (policy : RetryPolicy) (limit n : ℕ) (id : String) (r : Response) (last : LastError) (d : ℕ)
    (l : LastError)
    → judge_response config u p key policy limit n id r last ≡ again d l
    → (n < limit) × (is_retryable_status r.status_code ≡ true)
unfolding judge_response is_retryable_status is_conflict_status is_rate_limited
judge_response-again config u p key policy limit n id r last d l h =
    ground (arith, final_response-ne-again r d l)

pub judge-again :
    (config : RetryConfig) (u : ℕ → ℕ → ℕ) (p : String → Option ℤ) (key : Option String)
    (policy : RetryPolicy) (limit n : ℕ) (id : String) (q : Reply) (last : LastError) (d : ℕ)
    (l : LastError)
    → judge config u p key policy limit n id q last ≡ again d l
    → (n < limit) × IsTransient q
unfolding judge
judge-again config u p key policy limit n id (failed e) last d l h = (ground arith, tt)
judge-again config u p key policy limit n id (answered r) last d l h =
    judge_response-again config u p key policy limit n id r last d l h

module _ {S : Type 0} (t : GovernedTransport) (o : Outside S) (key : Option String)
    (policy : RetryPolicy) (limit : ℕ) (method path : String) where
  -- The last attempt of a call: what it found, and how the call ended with it.
  pub record Ending (out : Outcome × Run S) : Type 0 where
    pub number : ℕ
    pub caller : Headers
    pub last : LastError
    pub before : Run S
    pub within : number ≤ limit
    pub counted : length before.requests + 1 ≡ number
    pub quiet : All IsTransient before.replies
    pub ended :
        ((e : TransportError) × (x : ClientObservation) × (verdict_at t o key policy limit method
              path number caller last before
            ≡ stop e x)
          × (out ≡ (
            raised e,
            mark_run x (send_attempt t o key policy limit method path number caller before),
          )))
        ⊎ ((j : Json) × (r : Response) × (verdict_at t o key policy limit method path number caller
                last before
              ≡ success j r)
            × (out
                ≡ succeed j r (send_attempt t o key policy limit method path number caller before)))

  verdict_at-again :
      (n : ℕ) (caller : Headers) (last : LastError) (s : Run S) (d : ℕ) (l : LastError)
      → verdict_at t o key policy limit method path n caller last s ≡ again d l
      → (n < limit) × IsTransient (reply_at t o key policy limit method path n caller s)
  unfolding verdict_at
  verdict_at-again n caller last s d l v =
      judge-again t.retry_config o.uniform o.parse_float key policy limit n (o.uuid s.uuids) _ last
        d l v

  again-quiet :
      (n d : ℕ) (caller : Headers) (s : Run S)
      → IsTransient (reply_at t o key policy limit method path n caller s)
      → All IsTransient s.replies
      → All IsTransient
          (sleep_for_backoff d (send_attempt t o key policy limit method path n caller s)).replies
  unfolding send_attempt sleep_for_backoff reply_at
  again-quiet n d caller s h q = All-snoc IsTransient s.replies q h

  again-counted :
      (n d : ℕ) (caller : Headers) (s : Run S)
      → length s.requests + 1 ≡ n
      → length
            (sleep_for_backoff d
              (send_attempt t o key policy limit method path n caller s)).requests
          + 1
        ≡ n + 1
  unfolding send_attempt sleep_for_backoff
  again-counted n d caller s c = omega (arith, length-snoc {0})

  pub loop_ends :
      (left n : ℕ) (caller : Headers) (last : LastError) (s : Run S)
      → n + left ≡ limit + 1
      → n ≤ limit
      → length s.requests + 1 ≡ n
      → All IsTransient s.replies
      → Ending (attempts_from t o key policy limit method path left n caller last s)
  unfolding attempts_from
  loop_ends zero n caller last s e b c q = absurd (omega arith)
  loop_ends (suc left) n caller last s e b c q =
      elim (Verdict-cases (verdict_at t o key policy limit method path n caller last s)) [
        | inl (d, l, v) ↦
            let (room, mild) = verdict_at-again n caller last s d l v in
            rw (v, attempts_from)
              (loop_ends left (n + 1) [] l _ (omega arith) (omega arith)
                (again-counted n d caller s c) (again-quiet n d caller s mild q))
        | inr (inl (x, y, v)) ↦ record {
          number = n;
          caller = caller;
          last = last;
          before = s;
          within = b;
          counted = c;
          quiet = q;
          ended = inl (x, y, v, rw (v, attempts_from) refl);
        }
        | inr (inr (j, r, v)) ↦ record {
          number = n;
          caller = caller;
          last = last;
          before = s;
          within = b;
          counted = c;
          quiet = q;
          ended = inr (j, r, v, rw (v, attempts_from) refl);
        }
      ]

pub max_attempts-pos :
    (config : RetryConfig) (policy : RetryPolicy) → 1 ≤ max_attempts config policy
unfolding max_attempts
max_attempts-pos config policy = ground arith

module _ {S : Type 0} (t : GovernedTransport) (o : Outside S) (registry : Registry) (name : String)
    (given : Option String) (method path : String) (caller : Headers) (world : S) where
  -- Why a call may end before its first request.
  abbrev pub KeyMissing : Outcome × Run S → Type 0
  KeyMissing out =
      (is_unkeyed (o.uuid 0) (get_operation name registry) given ≡ true)
      × (out.0 ≡ raised (missing_idempotency_key name))
      × (out.1.requests ≡ [])

  pub execute-ends :
      KeyMissing (execute t o registry name given method path caller world)
      ⊎ (is_unkeyed (o.uuid 0) (get_operation name registry) given ≡ false)
        × Ending t o
            (mint_key o.uuid (requires_key (get_operation name registry)) given).0
            (policy_of (get_operation name registry))
            (max_attempts t.retry_config (policy_of (get_operation name registry)))
            method
            path
            (execute t o registry name given method path caller world)
  unfolding execute
  execute-ends =
      let d = get_operation name registry in
      let key = (mint_key o.uuid (requires_key d) given).0 in
      let limit = max_attempts t.retry_config (policy_of d) in
      elim (Bool-cases (is_write_operation d && not (key_truthy key))) [
        | inl e ↦ rw e (inl (sym (is_unkeyed_lem o.uuid d given) ∙ e, refl, refl))
        | inr e ↦ rw e (
            inr (
              sym (is_unkeyed_lem o.uuid d given) ∙ e,
              loop_ends t o key (policy_of d) limit method path limit 1 caller no_error _
                  (omega arith) (max_attempts-pos t.retry_config (policy_of d)) refl tt,
            ))
      ]
