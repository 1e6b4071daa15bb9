-- ===== src/Transport/Tests.antt =====
-- Calls of the transport on concrete scripts of replies.
use mathlib.Core.List.{tail}
use keyhole_sdk.Base.{
  truthy, ℕ, zero, suc, ◌≤◌, ◌≡◌, refl, ◌⊎◌, String, true, false, Option, none, some, List, [], ◌∷◌,
  ◌++◌, length, All,
}
use keyhole_sdk.Base.Dict.{lookup, insert}
use keyhole_sdk.Base.Int.{pos}
use keyhole_sdk.Base.Json.{obj, end}
use keyhole_sdk.Transport.Registry.{
  get_operation, builtin_registry, OperationDescriptor, naturally_convergent_exempt, no_retry,
}
use keyhole_sdk.Transport.Retry.{
  RetryConfig, compute_backoff_delay, capped_ms, is_retryable_status, is_conflict_status,
  is_rate_limited, parse_retry_after,
}
use keyhole_sdk.Transport.Errors.{retry_exhausted, runtime_returned}
use keyhole_sdk.Base.{◌+◌}
use keyhole_sdk.Transport.Call.Allowed.{retries_allowed, is_unkeyed}
use keyhole_sdk.Transport.Call.Ends.{IsTransient, KeyMissing}
use keyhole_sdk.Transport.Call.Results.{Reports, execute-returned}
use keyhole_sdk.Transport.Proof.{record_attempt, mark_observation}
use keyhole_sdk.Transport.Client.{
  Response, Reply, failed, answered, HttpRequest, Outside, GovernedTransport, TransportResult,
  Outcome, returned, raised, Run, max_attempts, judge, judge_response, final_response,
}
use keyhole_sdk.Transport.Call.{
  mint_key, execute, attempts_from, send_attempt, verdict_at, request_at, succeed, observe_success,
  sleep_for_backoff,
}
use keyhole_sdk.Transport.Call.Trail.{Mirrors, used_by_key, execute-bounded, execute-trail}
use keyhole_sdk.Transport.Call.Keys.{chosen_key, execute-keyed, execute-drops_headers}
use keyhole_sdk.Transport.Call.Outcomes.{end_of, answer, expected_end, execute-end}

abbrev no_header : String → Option String
no_header name = none

abbrev response : ℕ → Response
response status = record {
  status_code = status;
  text = "";
  reason = "";
  json = some (obj end);
  header = no_header;
  headers = [];
}

abbrev pop : List Reply → HttpRequest → Reply × List Reply
pop [] q = (failed "closed", [])
pop (r ∷ rs) q = (r, rs)

abbrev uuid : ℕ → String
uuid zero = "u0"
uuid (suc n) = "u1"

abbrev world : Outside (List Reply)
world = record {
  send = pop;
  uuid = uuid;
  now = λ n. "now";
  show_int = λ n. "1";
  uniform = λ n b. b;
  parse_float = λ s. none;
}

abbrev config : RetryConfig
config = record {
  enabled = true;
  max_retries = pos 3;
  backoff_base_ms = 250;
  backoff_max_ms = 5000;
  respect_retry_after = false;
  jitter = true;
}

abbrev transport : GovernedTransport
transport = record { auth_provider = none; retry_config = config; sdk_version = "1" }

abbrev flaky : List Reply
flaky = failed "reset" ∷ answered (response 503) ∷ answered (response 200) ∷ []

abbrev traced : List (String × String)
traced = ("X-Trace", "t") ∷ []

abbrev call : Outcome × Run (List Reply)
call = execute transport world builtin_registry "run.start" none "POST" "/runs" traced flaky

-- All that a call computes with.
code : Unit {0}
unfolding execute builtin_registry get_operation lookup insert mint_key max_attempts attempts_from
    send_attempt verdict_at judge judge_response is_retryable_status is_conflict_status
    is_rate_limited compute_backoff_delay capped_ms parse_retry_after final_response succeed
    observe_success sleep_for_backoff record_attempt request_at mark_observation
code = tt

call-runs :
    (length call.1.requests ≡ 3) × (end_of call.0 ≡ answer) × (call.1.sleeps ≡ 250 ∷ 500 ∷ [])
unfolding code
call-runs = (refl, refl, refl)

abbrev descriptor_of : String → OperationDescriptor
descriptor_of name = record {
  name = name;
  operation_class = naturally_convergent_exempt;
  retry_policy = no_retry;
  idempotency_required = false;
  proof_required = false;
}

call-returned : (res : TransportResult) × (call.0 ≡ returned res)
unfolding code
call-returned = (_, refl)

execute-bounded_example :
    length call.1.requests ≤ 1 + retries_allowed config (get_operation "run.start" builtin_registry)
execute-bounded_example =
    execute-bounded transport world builtin_registry "run.start" none "POST" "/runs" traced flaky

execute-trail_example :
    (call.1.proof.attempt_count ≡ length call.1.requests)
    × Mirrors uuid
        (used_by_key transport world builtin_registry "run.start" none "POST" "/runs" traced flaky)
        0
        call.1.proof.attempts
        call.1.requests
execute-trail_example =
    execute-trail transport world builtin_registry "run.start" none "POST" "/runs" traced flaky

execute-keyed_example :
    (truthy (chosen_key uuid none) ≡ true)
    × All (λ r. lookup "X-Idempotency-Key" r.headers ≡ some (chosen_key uuid none)) call.1.requests
unfolding get_operation builtin_registry lookup insert
execute-keyed_example =
    execute-keyed transport world builtin_registry "run.start" none "POST" "/runs" traced flaky refl
      refl

execute-drops_headers_example : All (λ q. lookup "X-Trace" q.headers ≡ none) (tail call.1.requests)
execute-drops_headers_example =
    execute-drops_headers transport world builtin_registry "run.start" none "POST" "/runs" traced
      flaky "X-Trace" refl refl refl refl

execute-end_example :
    KeyMissing transport world builtin_registry "run.start" none "POST" "/runs" traced flaky call
    ⊎ ((is_unkeyed (uuid 0) (get_operation "run.start" builtin_registry) none ≡ false)
        × ((earlier : List Reply) × (last : Reply) × (call.1.replies ≡ earlier ++ last ∷ [])
            × All IsTransient earlier
            × (end_of call.0
                ≡ expected_end
                    (1 + retries_allowed config (get_operation "run.start" builtin_registry))
                    last)))
execute-end_example =
    execute-end transport world builtin_registry "run.start" none "POST" "/runs" traced flaky

execute-returned_example :
    (earlier : List Reply) × (r : Response) × (call.1.replies ≡ earlier ++ answered r ∷ [])
    × Reports call call-returned.0 r
execute-returned_example =
    execute-returned transport world builtin_registry "run.start" none "POST" "/runs" traced flaky
      call-returned.0 call-returned.1

abbrev down : List Reply
down =
    answered (response 503)
    ∷ answered (response 503)
    ∷ answered (response 503)
    ∷ answered (response 504)
    ∷ []

abbrev failing : Outcome × Run (List Reply)
failing = execute transport world builtin_registry "health" none "GET" "/health" [] down

failing-exhausted : failing.0 ≡ raised (retry_exhausted "u1" none 4 (runtime_returned 504))
unfolding code
failing-exhausted = refl
