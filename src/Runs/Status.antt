-- ===== src/Runs/Status.antt =====
-- run_lifecycle/status.py: the query of a run's status, and what is made of the answer.
-- The call of the transport, `str.lower` and `str` of a number are parameters. A transport answers with
-- a status code and an object, or raises an exception of a named class with a text. An error class or
-- reason in an answer that is no text is outside the model.
pub mod Verdict
use keyhole_sdk.Base.{
  ℕ, String, Bool, true, false, not, ◌&&◌, ◌||◌, ◌⊎◌, inl, inr, Option, none, some, List, [], ◌∷◌,
  or_str, or_default, leb, truthy, if◌then◌else◌,
}
use keyhole_sdk.Base.Json.{
  Json, null, bool, str, obj, Fields, end, field, get_field, put_field, is_end, truthy_json,
}
use keyhole_sdk.Base.Text.{◌<>◌}
use keyhole_sdk.Runs.{RunStatus, unknown, classify_status, RunStatusResult}
use keyhole_sdk.Runs.Repair.{map_run_lifecycle_repair}

abbrev pub safe_dict : Option Json → Fields
safe_dict (some (obj d)) = d
safe_dict _ = end

abbrev pub safe_str : Option Json → String
safe_str (some (str s)) = s
safe_str _ = ""

-- `d.get(k) is False`
abbrev pub is_false : Option Json → Bool
is_false (some (bool false)) = true
is_false _ = false

abbrev pub incomplete : String → Fields
incomplete message =
    field "code" (str "PRODUCT_ENVELOPE_INCOMPLETE") (field "message" (str message) end)

-- `d or e` on objects.
abbrev pub or_fields : Fields → Fields → Fields
or_fields d e = if is_end d then e else d

unfoldable pub product_error : Fields → Fields → Option Fields
unfolding get_field
product_error d nested =
    if is_false (get_field "ok" d)
    then some (
        or_fields (safe_dict (get_field "error" d))
          (incomplete "Product operation returned ok=false."))
    else if is_false (get_field "ok" nested)
    then some (
        or_fields (safe_dict (get_field "error" nested))
          (incomplete "Product operation data returned ok=false."))
    else none

-- `d.setdefault(k, v)`
abbrev pub set_default : String → Json → Fields → Fields
set_default k v d = elim (get_field k d) [ none ↦ put_field k v d | some w ↦ d ]

unfoldable pub flatten_product_status_data : Fields → Fields → String → String → String → Fields
unfolding get_field put_field
flatten_product_status_data d nested run_id request_id correlation_id =
    let with_run = set_default "run_id" (str run_id) nested in
    let with_request =
      if truthy request_id then set_default "request_id" (str request_id) with_run else with_run in
    let with_correlation =
      if truthy correlation_id
      then set_default "correlation_id" (str correlation_id) with_request
      else with_request in
    if is_end nested then d else put_field "_raw_envelope" (obj d) with_correlation

-- `value is None` of what `d.get(k)` gives.
abbrev pub or_null : Option Json → Json → Json
or_null none v = v
or_null (some null) v = v
or_null (some w) v = w

-- `d.get(k, e.get(k, v))`
abbrev pub get_either : String → Fields → Fields → Json → Json
get_either k d e v = or_default (get_field k d) (or_default (get_field k e) v)

-- `_safe_str(d.get(k))`
abbrev pub text_at : String → Fields → String
text_at k d = safe_str (get_field k d)

abbrev pub text_json : Json → String → String
text_json (str s) t = s
text_json _ t = t

module _ (lower : String → String) (show : ℕ → String) where
  abbrev pub unresolved : String → String → String → String → ℕ → Fields → RunStatusResult Fields
  unresolved run_id error_class reason repair http_status_code response = record {
    ok = false;
    run_id = run_id;
    request_id = "";
    correlation_id = "";
    status = unknown;
    run_type = "";
    repo_name = str "";
    shadow = bool false;
    ctxpack_digest = str "";
    last_updated = str "";
    summary = str "";
    terminal_summary = str "";
    resolved = false;
    server_backed = false;
    http_status_code = http_status_code;
    response_data = response;
    error_class = error_class;
    reason = reason;
    repair_guidance = map_run_lifecycle_repair repair;
  }

  unfoldable pub raw_status : Fields → Fields → String
  raw_status d nested = or_str (text_at "status" d) (
      or_str (text_at "state" d) (
        or_str (text_at "run_status" d) (
          or_str (text_at "status" nested) (
            or_str (text_at "state" nested) (
              or_str (text_at "run_status" nested) (
                or_str (text_at "status" (safe_dict (get_field "run" nested)))
                  (text_at "status" (safe_dict (get_field "receipt" nested)))))))))

  unfoldable pub resolved_result : Fields → Fields → ℕ → String → Json → RunStatusResult Fields
  unfolding raw_status flatten_product_status_data classify_status
  resolved_result d nested code run_id repo_name =
      let refs = safe_dict (get_field "identity_refs" nested) in
      let receipt = safe_dict (get_field "receipt" nested) in
      let run_info = safe_dict (get_field "run" nested) in
      let request_info = safe_dict (get_field "request" nested) in
      let canonical = or_str (text_at "run_id" refs) (
        or_str (text_at "run_id" receipt)
          (or_str (text_at "run_id" run_info) (or_str (text_at "run_id" d) run_id))) in
      let id = λ (k : String).
        or_str (text_at k refs)
          (or_str (text_at k receipt) (or_str (text_at k nested) (text_at k d))) in
      let backed = not (is_end refs) || not (is_end receipt) in
      let summary =
        or_null (get_field "result" nested) (if is_end nested then null else obj nested) in
      record {
        ok = true;
        run_id = canonical;
        request_id = id "request_id";
        correlation_id = id "correlation_id";
        status = classify_status lower (raw_status d nested);
        run_type =
            or_str (text_at "run_type" d)
              (or_str (text_at "run_type" nested) (text_at "run_type" request_info));
        repo_name = get_either "repo" d nested repo_name;
        shadow = get_either "shadow" d nested (bool false);
        ctxpack_digest = get_either "ctxpack_digest" d nested (str "");
        last_updated =
            or_default (get_field "updated_at" d)
              (or_default (get_field "last_updated" d) (str ""));
        summary = get_either "summary" d nested (str "");
        terminal_summary = or_null (get_field "terminal_summary" d) summary;
        resolved = truthy_json (or_default (get_field "resolved" nested) null) || backed;
        server_backed = truthy_json (or_default (get_field "server_backed" nested) null) || backed;
        http_status_code = code;
        response_data =
            flatten_product_status_data d nested canonical (id "request_id") (id "correlation_id");
        error_class = "";
        reason = "";
        repair_guidance = [];
      }

  unfoldable pub classify_status_result : ℕ → Fields → String → Json → RunStatusResult Fields
  unfolding product_error resolved_result
  classify_status_result code d run_id repo_name =
      let nested = safe_dict (get_field "data" d) in
      if leb 400 code
      then unresolved run_id
          (text_json (or_default (get_field "error_class" d) null) "status_retrieval_failed")
          (text_json (or_default (get_field "reason" d) (or_default (get_field "message" d) null))
            ("HTTP " <> show code))
          "status_retrieval_failed" 0 d
      else elim (product_error d nested) [
        | some e ↦
            unresolved run_id (or_str (text_at "code" e) "PRODUCT_ENVELOPE_INCOMPLETE")
              (or_str (text_at "message" e) "Product envelope did not resolve.")
              "status_retrieval_failed" code d
        | none ↦ resolved_result d nested code run_id repo_name
      ]

  -- An exception's class and text.
  unfoldable pub handle_status_exception : String → String → String → RunStatusResult Fields
  handle_status_exception error_class text run_id =
      unresolved run_id error_class text error_class 0 end

  -- The body of the request.
  abbrev pub status_request : String → Json
  status_request run_id = obj (
      field "run_type" (str "run.status")
        (field "params" (obj (field "run_id" (str run_id) end)) end))

  unfoldable pub fetch_run_status :
      {W : Type 0}
      → (Json → W → W × ((String × String) ⊎ (ℕ × Fields)))
      → String
      → Json
      → W
      → W × RunStatusResult Fields
  unfolding classify_status_result handle_status_exception
  fetch_run_status execute run_id repo_name w =
      let answer = execute (status_request run_id) w in
      (
        answer.0,
        elim (answer.1) [
          | inl e ↦ handle_status_exception e.0 e.1 run_id
          | inr a ↦ classify_status_result a.0 a.1 run_id repo_name
        ],
      )
