-- ===== src/RunDispatch/Tests.antt =====
-- Runs that are dispatched.
use keyhole_sdk.Base.{
  ℕ, ◌+◌, ◌≡◌, refl, String, true, false, not, ◌&&◌, Option, none, some, [], inl, inr, elem,
  is_some, truthy,
}
use keyhole_sdk.Base.Json.{Json, num, str, Fields, end, field, get_field}
use keyhole_sdk.Base.Text.{strip, strip_left, strip_right, is_space}
use keyhole_sdk.Transport.Registry.{builtin_registry}
use keyhole_sdk.Dispatch.Names.{canonical_run_types, known_mistakes}
use keyhole_sdk.Dispatch.Preflight.Static.{static_preflight}
use keyhole_sdk.RunDispatch.{
  rejected, RunRequest, Reply, returned, to_payload, classify_outcome, outcome_by, refused,
  answered, run_id_of, status_json, extract_server_guidance, shown_items, attribute_error,
  dispatch_run, build_run_request,
}
use keyhole_sdk.RunDispatch.Preflight.{run_preflight, run_preflight-canonical}
use keyhole_sdk.RunDispatch.Honest.{Ends, dispatch_run-Ends}

abbrev same : String → String
same s = s

abbrev show : Json → String
show (str s) = s
show _ = ""

abbrev request : RunRequest
request = build_run_request "gaps.list" "repo" false none end "c1" "f" "now"

-- A transport that counts the calls; the proof of a call is a number.
abbrev send : String → String → Fields → ℕ → ℕ × Reply ℕ
send path name payload n = (n + 1, returned 200 (field "status" (str "rejected") end) 7)

abbrev proof_number : String → Option String → ℕ
proof_number id key = 0

-- A rejection in which the server gives no next step has none.
no_next_step :
    classify_outcome {P = ℕ} same show request 200 (field "status" (str "rejected") end) 7
    ≡ inr (record {
      status = rejected;
      run_type = "gaps.list";
      repo_name = "repo";
      shadow = false;
      correlation_id = "c1";
      run_id = Json.null;
      http_status = 200;
      response_data = field "status" (str "rejected") end;
      proof = some 7;
      error_class = str "server_rejection";
      reason = str "";
      repair_guidance = [];
    })
unfolding classify_outcome outcome_by refused answered run_id_of status_json extract_server_guidance
    shown_items get_field
no_next_step = refl

number_escapes :
    classify_outcome {P = ℕ} same show request 200 (field "status" (num 3) end) 7
    ≡ inl attribute_error
unfolding classify_outcome status_json get_field
number_escapes = refl

dispatch_run-Ends_example :
    let r = send "/mcp/v1/runs/start" "run.start" (to_payload request) 0 in
    let last = dispatch_run same show proof_number send request 0 in
    (last.0 ≡ r.0) × Ends same show request (r.1) (last.1)
dispatch_run-Ends_example = dispatch_run-Ends same show proof_number send request 0

run_preflight-canonical_example :
    is_some
      (run_preflight same (static_preflight known_mistakes) builtin_registry true true "gaps.list")
    ≡ not (true && true && truthy "gaps.list" && elem "gaps.list" canonical_run_types)
unfolding strip strip_left strip_right is_space
run_preflight-canonical_example =
    run_preflight-canonical same known_mistakes true true "gaps.list" refl
