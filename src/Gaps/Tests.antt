-- ===== src/Gaps/Tests.antt =====
-- Closures that are checked.
use keyhole_sdk.Base.{ℕ, ◌+◌, ◌≡◌, refl, String, Option, none, some, inr}
use keyhole_sdk.Base.Json.{num, str, obj, Fields, end, field, get_field}
use keyhole_sdk.Gaps.{
  unwrap, find_stream, listed_stream, missing_fields, spine_status, spine_limit, unpersisted_count,
  gap_status, gap_id_of, assert_event_spine_safe, assert_gap_open_for_closure,
  assert_closure_response_governed,
}
use keyhole_sdk.Gaps.Client.{answered, Session, json_response, get_health, preflight}
use keyhole_sdk.Gaps.Closed.{PreflightVerdict, preflight-PreflightVerdict}

abbrev healthy : Fields
healthy = field "status" (str "PASS") (field "unpersisted_message_count" (num 0) end)

abbrev open_gap : Fields
open_gap = field "data" (obj (field "gap_id" (str "gap_7") (field "status" (str "OPEN") end))) end

abbrev closure : Fields
closure =
    field "closure"
      (obj (
        field "closed_ts" (str "now") (
          field "close_verdict_ref" (str "v1") (
            field "convergence_closure_lineage" (str "l")
              (field "gap_closure_history" (str "h") end)))))
      end

abbrev same : String → String
same s = s

abbrev no_number : String → Option ℕ
no_number s = none

-- A session that counts the requests.
abbrev session : Session ℕ
session = record {
  get = λ url headers body n. (n + 1, answered 200 (some (obj healthy)));
  post = λ url headers body n. (n + 1, answered 200 (some (obj open_gap)));
}

cleared :
    preflight session "u" "t" same no_number "gap_7" 0
    ≡ (2, inr (record { event_spine = healthy; target_gap = open_gap }))
unfolding preflight json_response assert_event_spine_safe assert_gap_open_for_closure spine_status
    spine_limit unpersisted_count gap_status gap_id_of unwrap find_stream listed_stream get_field
cleared = refl

-- A count of zero at the top stands before the count of the stream.
hidden_count :
    assert_event_spine_safe no_number
      (field "KH_VERDICTS" (obj (field "unpersisted_message_count" (num 5) end)) healthy)
    ≡ none
unfolding assert_event_spine_safe spine_status spine_limit unpersisted_count find_stream
    listed_stream get_field
hidden_count = refl

-- An answer that holds no count is taken for a count of zero.
no_count : assert_event_spine_safe no_number (field "status" (str "PASS") end) ≡ none
unfolding assert_event_spine_safe spine_status spine_limit unpersisted_count find_stream
    listed_stream get_field
no_count = refl

governed : assert_closure_response_governed closure ≡ none
unfolding assert_closure_response_governed missing_fields unwrap get_field
governed = refl

preflight-PreflightVerdict_example :
    PreflightVerdict session "u" "t" same no_number "gap_7"
      (get_health session "u" "t" 0)
      (preflight session "u" "t" same no_number "gap_7" 0)
preflight-PreflightVerdict_example =
    preflight-PreflightVerdict session "u" "t" same no_number "gap_7" 0
