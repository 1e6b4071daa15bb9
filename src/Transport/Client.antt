-- ===== src/Transport/Client.antt =====
-- transport/client.py: `GovernedTransport.execute`. The session, the source of UUIDs, the clock,
-- `random.uniform`, `float` and the auth provider's `get_token` are parameters.
use keyhole_sdk.Base.{
  ℕ, ◌+◌, max, String, Bool, true, false, not, ◌&&◌, Option, none, some, List, [], ◌∷◌, ltb, leb,
  truthy, or_str, if◌then◌else◌, ◌⊎◌, inl, inr, ◌≡◌, refl,
}
use keyhole_sdk.Base.Text.{take_chars, ◌<>◌}
use keyhole_sdk.Base.Dict.{insert, update}
use keyhole_sdk.Base.Int.{ℤ, pos, negsuc}
use keyhole_sdk.Base.Json.{Json, null, bool, num, str, arr, obj, Fields, get_field}
use keyhole_sdk.Transport.Errors.{
  LastError, connection_error, runtime_returned, TransportError, idempotency_conflict,
  retry_exhausted, transport_failed, rate_limited, runtime_unavailable, public_endpoint,
  schema_invalid, attribute_error,
}
use keyhole_sdk.Transport.Proof.{
  ClientObservation, executed, deferred, conflict, transport_unknown, not_sent,
  TransportProofMetadata,
}
use keyhole_sdk.Transport.Registry.{
  OperationClass, write_idempotent_required, RetryPolicy, no_retry,
}
use keyhole_sdk.Transport.Retry.{
  RetryConfig, compute_backoff_delay, is_retryable_status, is_conflict_status, is_rate_limited,
  parse_retry_after,
}

abbrev pub Headers : Type 0
Headers = List (String × String)

-- What the code reads of a `requests.Response`; `json` is none where `response.json()` raises
-- ValueError, `header` is the case-insensitive lookup.
pub record Response : Type 0 where
  pub status_code : ℕ
  pub text : String
  pub reason : String
  pub json : Option Json
  pub header : String → Option String
  pub headers : Headers

-- `failed` is a ConnectionError, a Timeout or an OSError of `session.request`.
pub data Reply : Type 0 where
  failed : String → Reply
  answered : Response → Reply

pub record HttpRequest : Type 0 where
  pub method : String
  pub path : String
  pub headers : Headers

-- What a call uses of code that is not the SDK's. `S` is the state of the world beyond the session.
pub record Outside (S : Type 0) : Type 0 where
  pub send : S → HttpRequest → Reply × S
  pub uuid : ℕ → String
  pub now : ℕ → String
  pub show_int : ℕ → String
  pub uniform : ℕ → ℕ → ℕ
  pub parse_float : String → Option ℤ

pub record GovernedTransport : Type 0 where
  pub auth_provider : Option (ℕ → Option String)
  pub retry_config : RetryConfig
  pub sdk_version : String

pub record TransportResult : Type 0 where
  pub data_json : Json
  pub status_code : ℕ
  pub proof : TransportProofMetadata
  pub response_headers : Headers

pub data Outcome : Type 0 where
  returned : TransportResult → Outcome
  raised : TransportError → Outcome

-- What an attempt leads to: another one after a delay, or the end of the call.
pub data Verdict : Type 0 where
  again : ℕ → LastError → Verdict
  stop : TransportError → ClientObservation → Verdict
  success : Json → Response → Verdict

pub Verdict-cases :
    (v : Verdict)
    → ((d : ℕ) × (l : LastError) × (v ≡ again d l))
      ⊎ ((e : TransportError) × (x : ClientObservation) × (v ≡ stop e x))
      ⊎ ((j : Json) × (r : Response) × (v ≡ success j r))
Verdict-cases (again d l) = inl (d, l, refl)
Verdict-cases (stop e x) = inr (inl (e, x, refl))
Verdict-cases (success j r) = inr (inr (j, r, refl))

-- The mutable part of a call, with a log of what it did.
pub record Run (S : Type 0) : Type 0 where
  pub world : S
  pub uuids : ℕ
  pub proof : TransportProofMetadata
  pub requests : List HttpRequest
  pub replies : List Reply
  pub sleeps : List ℕ

abbrev pub is_no_retry : RetryPolicy → Bool
is_no_retry no_retry = true
is_no_retry _ = false

abbrev pub is_write : OperationClass → Bool
is_write write_idempotent_required = true
is_write _ = false

abbrev plus_one : ℤ → ℕ
plus_one (pos n) = n + 1
plus_one (negsuc n) = 0

unfoldable pub max_attempts : RetryConfig → RetryPolicy → ℕ
max_attempts config policy =
    if not config.enabled
    then 1
    else if is_no_retry policy
    then 1
    else max 1 (plus_one config.max_retries)

-- `AuthProvider.get_headers` (auth.py), at the token that the provider gives now.
unfoldable pub get_headers : Option String → Headers
get_headers none = []
get_headers (some token) = if truthy token then ("Authorization", "Bearer " <> token) ∷ [] else []

abbrev pub auth_headers : GovernedTransport → ℕ → Headers
auth_headers t attempt = elim t.auth_provider [
  | none ↦ []
  | some provider ↦ get_headers (provider attempt)
]

abbrev pub key_truthy : Option String → Bool
key_truthy none = false
key_truthy (some k) = truthy k

abbrev pub with_key : Option String → Headers → Headers
with_key none hs = hs
with_key (some k) hs = if truthy k then insert "X-Idempotency-Key" k hs else hs

-- The headers of one attempt.
unfoldable pub build_headers : GovernedTransport → Option String → String → ℕ → Headers → Headers
build_headers t key request_id attempt caller =
    let hs = with_key key (insert "X-Request-Id" request_id caller) in
    update (if truthy t.sdk_version then insert "X-Keyhole-SDK-Version" t.sdk_version hs else hs)
      (auth_headers t attempt)

-- `body.get(k, d)`
abbrev body_get : String → Json → Fields → Json
body_get k d fs = elim (get_field k fs) [ none ↦ d | some v ↦ v ]

-- A 4xx that is neither a conflict nor a rate limit.
unfoldable pub client_error : Response → TransportError
client_error r = elim r.json [
  | none ↦ public_endpoint (str (or_str r.reason "request failed")) r.status_code (str "")
  | some (obj fs) ↦
      public_endpoint (body_get "error" (str (or_str r.reason "request failed")) fs) r.status_code
        (body_get "detail" (str "") fs)
  | some null ↦ attribute_error
  | some (bool b) ↦ attribute_error
  | some (num n) ↦ attribute_error
  | some (str s) ↦ attribute_error
  | some (arr xs) ↦ attribute_error
]

-- The end of a call by a response that no rule of the loop handled before.
unfoldable pub final_response : Response → Verdict
final_response r =
    if leb 500 r.status_code
    then stop (runtime_unavailable r.status_code) transport_unknown
    else if leb 400 r.status_code
    then stop (client_error r) not_sent
    else elim r.json [ none ↦ stop schema_invalid executed | some data_json ↦ success data_json r ]

module _ (config : RetryConfig) (uniform : ℕ → ℕ → ℕ) (parse_float : String → Option ℤ)
    (key : Option String) (policy : RetryPolicy) (limit : ℕ) where
  unfoldable pub judge_response : ℕ → String → Response → LastError → Verdict
  judge_response attempt request_id r last =
      let retry_after = parse_retry_after parse_float r.header in
      let delay = compute_backoff_delay (uniform attempt) attempt config retry_after in
      if is_conflict_status r.status_code
      then stop (idempotency_conflict request_id key (take_chars 500 r.text)) conflict
      else if is_rate_limited r.status_code
      then (if ltb attempt limit && not (is_no_retry policy)
          then again delay last
          else stop (rate_limited request_id key retry_after) deferred)
      else if is_retryable_status r.status_code && ltb 1 limit
      then (if ltb attempt limit
          then again delay (runtime_returned r.status_code)
          else stop (retry_exhausted request_id key attempt (runtime_returned r.status_code))
              transport_unknown)
      else final_response r

  unfoldable pub judge : ℕ → String → Reply → LastError → Verdict
  judge attempt request_id (failed e) last =
      if ltb attempt limit && not (is_no_retry policy)
      then again (compute_backoff_delay (uniform attempt) attempt config none) (connection_error e)
      else stop (transport_failed request_id key) transport_unknown
  judge attempt request_id (answered r) last = judge_response attempt request_id r last
