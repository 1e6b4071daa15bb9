-- ===== src/Transport/Call/Keys.antt =====
-- Which headers the requests of a call carry: the idempotency key on all of them, the caller's own
-- headers on the first one alone.
use mathlib.Core.List.{tail}
use keyhole_sdk.Base.{
  ℕ, ◌+◌, ◌≡◌, refl, ◌∙◌, String, true, false, not, ◌&&◌, Option, none, some, List, [], ◌∷◌, ◌++◌,
  arith, length, length-snoc, Bool-cases, inl, inr, ◌⊎◌, str_eq, truthy, if◌then◌else◌, All,
  All-snoc,
}
use keyhole_sdk.Base.Dict.{lookup}
use keyhole_sdk.Base.Json.{Json}
use keyhole_sdk.Transport.Errors.{LastError, no_error}
use keyhole_sdk.Transport.Proof.{ClientObservation}
use keyhole_sdk.Transport.Registry.{RetryPolicy, Registry, get_operation}
use keyhole_sdk.Transport.Client.{
  Headers, Response, HttpRequest, Outside, GovernedTransport, Run, key_truthy, max_attempts,
}
use keyhole_sdk.Transport.Call.{
  sleep_for_backoff, mark_run, succeed, request_at, send_attempt, attempts_from, policy_of,
  requires_key, is_write_operation, mint_key, execute,
}
use keyhole_sdk.Transport.Call.Loop.{loop_keeps}
use keyhole_sdk.Transport.Call.RequestHeaders.{build_headers-key, build_headers-other}

module _ {S : Type 0} (t : GovernedTransport) (o : Outside S) (k : String) (real : truthy k ≡ true)
    (policy : RetryPolicy) (limit : ℕ) (method path : String) where
  abbrev IsKeyed : ℕ → Run S → Type 0
  IsKeyed n s = All (λ r. lookup "X-Idempotency-Key" r.headers ≡ some k) s.requests

  send_attempt-IsKeyed :
      (n : ℕ) (caller : Headers) (s : Run S)
      → Unit {0}
      → IsKeyed n s
      → IsKeyed (n + 1) (send_attempt t o (some k) policy limit method path n caller s)
  unfolding send_attempt request_at
  send_attempt-IsKeyed n caller s _ h =
      All-snoc _ s.requests h (build_headers-key t k (o.uuid s.uuids) n caller real)

  sleep_for_backoff-IsKeyed :
      (n d : ℕ) (s : Run S) → IsKeyed n s → IsKeyed n (sleep_for_backoff d s)
  unfolding sleep_for_backoff
  sleep_for_backoff-IsKeyed n d s h = h

  mark_run-IsKeyed :
      (n : ℕ) (x : ClientObservation) (s : Run S) → IsKeyed n s → IsKeyed n (mark_run x s)
  unfolding mark_run
  mark_run-IsKeyed n x s h = h

  succeed-IsKeyed :
      (n : ℕ) (j : Json) (r : Response) (s : Run S) → IsKeyed n s → IsKeyed n (succeed j r s).1
  unfolding succeed
  succeed-IsKeyed n j r s h = h

  attempts_from-IsKeyed :
      (left n : ℕ) (caller : Headers) (last : LastError) (s : Run S)
      → IsKeyed n s
      → All
          (λ r. lookup "X-Idempotency-Key" r.headers ≡ some k)
          (attempts_from t o (some k) policy limit method path left n caller last s).1.requests
  attempts_from-IsKeyed left n caller last s h =
      let (m, below, above, kept) =
        loop_keeps t o (some k) policy limit method path IsKeyed (λ n hs. Unit) (λ n. tt)
          send_attempt-IsKeyed sleep_for_backoff-IsKeyed mark_run-IsKeyed succeed-IsKeyed left n
          caller last s tt h in
      kept

-- The key of a call that needs one: the given one, or the first UUID.
abbrev pub chosen_key : (ℕ → String) → Option String → String
chosen_key uuid none = uuid 0
chosen_key uuid (some k) = if truthy k then k else uuid 0

chosen_key-truthy :
    (uuid : ℕ → String) (given : Option String)
    → truthy (uuid 0) ≡ true
    → truthy (chosen_key uuid given) ≡ true
chosen_key-truthy uuid none h = h
chosen_key-truthy uuid (some k) h = elim (Bool-cases (truthy k)) [
  | inl e ↦ rw (e, e)
  | inr e ↦ rw (e, h)
]

mint_key-chosen :
    (uuid : ℕ → String) (given : Option String)
    → (mint_key uuid true given).0 ≡ some (chosen_key uuid given)
unfolding mint_key
mint_key-chosen uuid none = refl
mint_key-chosen uuid (some k) = elim (Bool-cases (truthy k)) [
  | inl e ↦ rw e refl
  | inr e ↦ rw e refl
]

module _ {S : Type 0} (t : GovernedTransport) (o : Outside S) (registry : Registry) (name : String)
    (given : Option String) (method path : String) (caller : Headers) (world : S) where
  -- Every request of a call whose operation requires a key carries the same non-empty
  -- X-Idempotency-Key, retries included: the caller's key, or a UUID minted once for the call.
  pub execute-keyed :
      requires_key (get_operation name registry) ≡ true
      → truthy (o.uuid 0) ≡ true
      → (truthy (chosen_key o.uuid given) ≡ true)
        × All
            (λ r. lookup "X-Idempotency-Key" r.headers ≡ some (chosen_key o.uuid given))
            (execute t o registry name given method path caller world).1.requests
  unfolding execute
  execute-keyed required real =
      let policy = policy_of (get_operation name registry) in
      let limit = max_attempts t.retry_config policy in
      let usable = chosen_key-truthy o.uuid given real in
      let writes = is_write_operation (get_operation name registry) in
      (
        usable,
        rw (required, mint_key-chosen)
            (elim (Bool-cases (writes && not (truthy (chosen_key o.uuid given)))) [
              | inl e ↦ rw e tt
              | inr e ↦ rw e (
                  attempts_from-IsKeyed t o (chosen_key o.uuid given) usable policy limit method
                    path limit 1 caller no_error _ tt)
            ]),
      )

module _ {S : Type 0} (t : GovernedTransport) (o : Outside S) (key : Option String)
    (policy : RetryPolicy) (limit : ℕ) (method path k : String)
    (a : str_eq "Authorization" k ≡ false) (v : str_eq "X-Keyhole-SDK-Version" k ≡ false)
    (i : str_eq "X-Idempotency-Key" k ≡ false) (r : str_eq "X-Request-Id" k ≡ false) where
  abbrev IsFirst : ℕ → Headers → Type 0
  IsFirst n caller = (n ≡ 1) ⊎ (caller ≡ [])

  abbrev Dropped : ℕ → Run S → Type 0
  Dropped n s = (length s.requests + 1 ≡ n) × All (λ q. lookup k q.headers ≡ none) (tail s.requests)

  All-tail-snoc :
      (n : ℕ) (caller : Headers) (qs : List HttpRequest) (q : HttpRequest)
      → length qs + 1 ≡ n
      → IsFirst n caller
      → All (λ q. lookup k q.headers ≡ none) (tail qs)
      → (caller ≡ [] → lookup k q.headers ≡ none)
      → All (λ q. lookup k q.headers ≡ none) (tail (qs ++ q ∷ []))
  All-tail-snoc n caller [] q c f h l = tt
  All-tail-snoc n caller (x ∷ qs) q c (inl e) h l = absurd (omega arith)
  All-tail-snoc n caller (x ∷ qs) q c (inr e) h l = All-snoc _ qs h (l e)

  send_attempt-Dropped :
      (n : ℕ) (caller : Headers) (s : Run S)
      → IsFirst n caller
      → Dropped n s
      → Dropped (n + 1) (send_attempt t o key policy limit method path n caller s)
  unfolding send_attempt request_at
  send_attempt-Dropped n caller s f (c, h) = (
    omega (arith, length-snoc {0}),
    All-tail-snoc n caller s.requests _ c f h (λ e.
        build_headers-other t key k (o.uuid s.uuids) n caller a v i r
        ∙ rw e (unfold lookup in refl)),
  )

  sleep_for_backoff-Dropped :
      (n d : ℕ) (s : Run S) → Dropped n s → Dropped n (sleep_for_backoff d s)
  unfolding sleep_for_backoff
  sleep_for_backoff-Dropped n d s h = h

  mark_run-Dropped :
      (n : ℕ) (x : ClientObservation) (s : Run S) → Dropped n s → Dropped n (mark_run x s)
  unfolding mark_run
  mark_run-Dropped n x s h = h

  succeed-Dropped :
      (n : ℕ) (j : Json) (r : Response) (s : Run S) → Dropped n s → Dropped n (succeed j r s).1
  unfolding succeed
  succeed-Dropped n j r s h = h

  attempts_from-Dropped :
      (left : ℕ) (caller : Headers) (last : LastError) (s : Run S)
      → s.requests ≡ []
      → All
          (λ q. lookup k q.headers ≡ none)
          (tail (attempts_from t o key policy limit method path left 1 caller last s).1.requests)
  attempts_from-Dropped left caller last s e =
      let (m, below, above, kept) =
        loop_keeps t o key policy limit method path Dropped IsFirst (λ n. inr refl)
          send_attempt-Dropped sleep_for_backoff-Dropped mark_run-Dropped succeed-Dropped left 1
          caller last s (inl refl) (rw e (refl, tt)) in
      kept.1

-- A header that the caller passes is on no request after the first: `execute` takes it out of the
-- keyword arguments at the first attempt. (The headers that the transport sets are the exceptions.)
pub execute-drops_headers :
    {S : Type 0} (t : GovernedTransport) (o : Outside S) (registry : Registry) (name : String)
    (given : Option String) (method path : String) (caller : Headers) (world : S) (k : String)
    → str_eq "Authorization" k ≡ false
    → str_eq "X-Keyhole-SDK-Version" k ≡ false
    → str_eq "X-Idempotency-Key" k ≡ false
    → str_eq "X-Request-Id" k ≡ false
    → All
        (λ q. lookup k q.headers ≡ none)
        (tail (execute t o registry name given method path caller world).1.requests)
unfolding execute
execute-drops_headers t o registry name given method path caller world k a v i r =
    let d = get_operation name registry in
    let key = (mint_key o.uuid (requires_key d) given).0 in
    let limit = max_attempts t.retry_config (policy_of d) in
    elim (Bool-cases (is_write_operation d && not (key_truthy key))) [
      | inl e ↦ rw e tt
      | inr e ↦ rw e (
          attempts_from-Dropped t o key (policy_of d) limit method path k a v i r limit caller
            no_error _ refl)
    ]
