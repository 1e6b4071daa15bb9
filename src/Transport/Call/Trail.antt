-- ===== src/Transport/Call/Trail.antt =====
-- The proof trail of a call mirrors the requests that it sent.
use keyhole_sdk.Base.{
  ℕ, suc, ◌+◌, ◌≡◌, refl, ap, ◌∙◌, String, Option, List, [], ◌∷◌, ◌++◌, ◌&&◌, not, arith, length,
  length-snoc, min, Bool-cases, inl, inr, some, ◌≤◌,
}
use keyhole_sdk.Base.Dict.{lookup}
use keyhole_sdk.Base.Json.{Json}
use keyhole_sdk.Transport.Errors.{LastError, no_error}
use keyhole_sdk.Transport.Proof.{
  ClientObservation, AttemptMetadata, TransportProofMetadata, new_proof, record_attempt,
  mark_observation,
}
use keyhole_sdk.Transport.Registry.{RetryPolicy, Registry, get_operation}
use keyhole_sdk.Transport.Client.{
  Headers, Response, HttpRequest, Outside, GovernedTransport, Run, key_truthy, max_attempts,
}
use keyhole_sdk.Transport.Call.{
  sleep_for_backoff, mark_run, observe_success, succeed, request_at, send_attempt, attempts_from,
  policy_of, requires_key, is_write_operation, mint_key, start_run, execute,
}
use keyhole_sdk.Transport.Call.Allowed.{retries_allowed, max_attempts_lem}
use keyhole_sdk.Transport.Call.Loop.{loop_keeps}
use keyhole_sdk.Transport.Call.RequestHeaders.{build_headers-request_id}

-- The entries number the requests from k + 1 on, and name the id that each request carries, which
-- is the next UUID.
abbrev pub Mirrors : (ℕ → String) → ℕ → ℕ → List AttemptMetadata → List HttpRequest → Type 0
Mirrors uuid used k [] [] = Unit
Mirrors uuid used k (a ∷ es) [] = ⊥
Mirrors uuid used k [] (r ∷ rs) = ⊥
Mirrors uuid used k (a ∷ es) (r ∷ rs) =
    (a.attempt ≡ k + 1)
    × (a.request_id ≡ uuid (used + k))
    × (lookup "X-Request-Id" r.headers ≡ some a.request_id)
    × Mirrors uuid used (suc k) es rs

Mirrors-snoc :
    (uuid : ℕ → String) (used k : ℕ) (es : List AttemptMetadata) (rs : List HttpRequest)
    (a : AttemptMetadata) (r : HttpRequest)
    → Mirrors uuid used k es rs
    → a.attempt ≡ k + length rs + 1
    → a.request_id ≡ uuid (used + (k + length rs))
    → lookup "X-Request-Id" r.headers ≡ some a.request_id
    → Mirrors uuid used k (es ++ a ∷ []) (rs ++ r ∷ [])
Mirrors-snoc uuid used k [] [] a r h p q e =
    (omega arith, q ∙ ap (λ i. uuid (used + i)) (omega arith), e, tt)
Mirrors-snoc uuid used k (x ∷ es) [] a r h p q e = absurd h
Mirrors-snoc uuid used k [] (y ∷ rs) a r h p q e = absurd h
Mirrors-snoc uuid used k (x ∷ es) (y ∷ rs) a r (b, c, d, h) p q e = (
  b,
  c,
  d,
  Mirrors-snoc uuid used (suc k) es rs a r h (omega arith)
      (q ∙ ap (λ i. uuid (used + i)) (omega arith)) e,
)

pub record IsTrail {S : Type 0} (o : Outside S) (used n : ℕ) (s : Run S) : Type 0 where
  pub counted : length s.requests + 1 ≡ n
  pub minted : s.uuids ≡ used + length s.requests
  pub recorded : s.proof.attempt_count ≡ length s.requests
  pub mirrored : Mirrors o.uuid used 0 s.proof.attempts s.requests

module _ {S : Type 0} (t : GovernedTransport) (o : Outside S) (key : Option String)
    (policy : RetryPolicy) (limit : ℕ) (method path : String) (used : ℕ) where
  length-attempts :
      (k : ℕ) (es : List AttemptMetadata) (rs : List HttpRequest)
      → Mirrors o.uuid used k es rs
      → length es ≡ length rs
  length-attempts k [] [] h = refl
  length-attempts k (a ∷ es) [] h = absurd h
  length-attempts k [] (r ∷ rs) h = absurd h
  length-attempts k (a ∷ es) (r ∷ rs) h = ap suc (length-attempts (suc k) es rs h.3)

  send_attempt-IsTrail :
      (n : ℕ) (caller : Headers) (s : Run S)
      → Unit {0}
      → IsTrail o used n s
      → IsTrail o used (n + 1) (send_attempt t o key policy limit method path n caller s)
  unfolding send_attempt record_attempt request_at
  send_attempt-IsTrail n caller s _ h = record {
    counted = omega (arith, length-snoc {0}, h.counted);
    minted = omega (arith, length-snoc {0}, h.minted);
    recorded =
        omega (arith, length-snoc {0}, length-attempts 0 s.proof.attempts s.requests h.mirrored);
    mirrored =
        Mirrors-snoc o.uuid used 0 s.proof.attempts s.requests _ _ h.mirrored
          (omega (arith, h.counted)) (ap o.uuid (omega (arith, h.minted)))
          (build_headers-request_id t key (o.uuid s.uuids) n caller);
  }

  sleep_for_backoff-IsTrail :
      (n d : ℕ) (s : Run S) → IsTrail o used n s → IsTrail o used n (sleep_for_backoff d s)
  unfolding sleep_for_backoff
  sleep_for_backoff-IsTrail n d s h = record {
    counted = h.counted;
    minted = h.minted;
    recorded = h.recorded;
    mirrored = h.mirrored;
  }

  mark_run-IsTrail :
      (n : ℕ) (x : ClientObservation) (s : Run S)
      → IsTrail o used n s
      → IsTrail o used n (mark_run x s)
  unfolding mark_run mark_observation
  mark_run-IsTrail n x s h = record {
    counted = h.counted;
    minted = h.minted;
    recorded = h.recorded;
    mirrored = h.mirrored;
  }

  observe_success-attempts :
      (r : Response) (p : TransportProofMetadata)
      → ((observe_success r p).attempts ≡ p.attempts)
        × ((observe_success r p).attempt_count ≡ p.attempt_count)
  unfolding observe_success mark_observation
  observe_success-attempts r p = ground arith

  succeed-IsTrail :
      (n : ℕ) (j : Json) (r : Response) (s : Run S)
      → IsTrail o used n s
      → IsTrail o used n (succeed j r s).1
  unfolding succeed
  succeed-IsTrail n j r s h =
      let (es, count) = observe_success-attempts r s.proof in
      record {
        counted = h.counted;
        minted = h.minted;
        recorded = count ∙ h.recorded;
        mirrored = rw es h.mirrored;
      }

  pub attempts_from-IsTrail :
      (left n : ℕ) (caller : Headers) (last : LastError) (s : Run S)
      → IsTrail o used n s
      → (m : ℕ) × (m ≤ n + left)
        × (min (n + left) (n + 1) ≤ m)
        × IsTrail o used m (attempts_from t o key policy limit method path left n caller last s).1
  attempts_from-IsTrail left n caller last s h =
      loop_keeps t o key policy limit method path (IsTrail o used) (λ n hs. Unit) (λ n. tt)
        send_attempt-IsTrail sleep_for_backoff-IsTrail mark_run-IsTrail succeed-IsTrail left n
        caller last s tt h

module _ {S : Type 0} (t : GovernedTransport) (o : Outside S) (registry : Registry) (name : String)
    (given : Option String) (method path : String) (caller : Headers) (world : S) where
  -- How many UUIDs the key of the call used up.
  abbrev pub used_by_key : ℕ
  used_by_key = (mint_key o.uuid (requires_key (get_operation name registry)) given).1

  start_run-IsTrail :
      (p : Option String) (c d : String)
      → IsTrail o used_by_key 1 (start_run world used_by_key (new_proof p c d))
  unfolding new_proof
  start_run-IsTrail p c d = record {
    counted = refl;
    minted = omega arith;
    recorded = refl;
    mirrored = tt;
  }

  execute-IsTrail :
      (m : ℕ) × (m ≤ 1 + max_attempts t.retry_config (policy_of (get_operation name registry)))
      × IsTrail o used_by_key m (execute t o registry name given method path caller world).1
  unfolding execute
  execute-IsTrail =
      elim (Bool-cases (
        is_write_operation (get_operation name registry)
        && not
            (key_truthy (mint_key o.uuid (requires_key (get_operation name registry)) given).0))) [
              | inl e ↦ rw e (1, omega arith, start_run-IsTrail _ _ _)
              | inr e ↦ rw e (
                  let (m, below, above, h) =
                    attempts_from-IsTrail t o _ _ _ method path used_by_key _ 1 caller no_error _
                      (start_run-IsTrail _ _ _) in
                  (m, below, h))
            ]

  -- A call sends one request and at most `max_retries` more, and no more than the one where retries are
  -- off, `max_retries` is negative, the operation is not known, or its policy is not to retry.
  pub execute-bounded :
      length (execute t o registry name given method path caller world).1.requests
      ≤ 1 + retries_allowed t.retry_config (get_operation name registry)
  execute-bounded =
      let (m, below, h) = execute-IsTrail in
      omega (arith, h.counted, max_attempts_lem t.retry_config (get_operation name registry))

  -- The proof trail of a call counts the requests that were sent, and mirrors them one by one: the
  -- k-th entry has number k, and its id is the X-Request-Id of the k-th request and the k-th UUID
  -- after the one that the key used, if it used one.
  pub execute-trail :
      let s = (execute t o registry name given method path caller world).1 in
      (s.proof.attempt_count ≡ length s.requests)
      × Mirrors o.uuid used_by_key 0 s.proof.attempts s.requests
  execute-trail = let (m, below, h) = execute-IsTrail in (h.recorded, h.mirrored)
