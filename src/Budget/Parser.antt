-- ===== src/Budget/Parser.antt =====
-- budget/parser.py: what an answer says of limits and budgets.
-- `str`, `float` and `int` of a JSON value, `str.lower`, and the types of the numbers are parameters.
-- An id that is no text is outside the model.
pub mod Pressure
use keyhole_sdk.Base.{
  ℕ, String, Bool, true, false, not, ◌&&◌, ◌||◌, Option, none, some, List, [], ◌∷◌, elem, is_empty,
  or_str, truthy, ◌==◌, if◌then◌else◌,
}
use keyhole_sdk.Base.Json.{
  Json, null, bool, str, arr, obj, Items, nil, cons, Fields, end, field, get_field, get_json,
  or_json, truthy_json, is_end,
}
use keyhole_sdk.Base.Text.{◌<>◌, strip, is_within}
use keyhole_sdk.Budget.Repair.{map_budget_repair}
use keyhole_sdk.Budget.Outcomes.{
  budget_exhausted, deferred, rate_limited, concurrency_limited, no_pressure_data,
  LimitOutcomeClass, BudgetSnapshot, LimitResult, classify_outcome, full_list, get_snapshots_raw,
  is_deferred, is_exhausted, is_overload_code, is_rate_limit_code, object_of, outcome_value,
}

abbrev pub text_or : Json → String → String
text_or (str s) t = s
text_or _ t = t

-- `x or y or ""`, as a text.
abbrev pub first_text : (Json → String) → Json → Json → String
first_text show x y = show (or_json x (or_json y (str "")))

module _ {F N : Type 0} (show : Json → String) (to_float : Json → Option F)
    (to_int : Json → Option N) (lower : String → String) where
  abbrev pub safe_float : Json → Option F
  safe_float null = none
  safe_float v = to_float v

  abbrev pub safe_int : Json → Option N
  safe_int null = none
  safe_int v = to_int v

  unfoldable pub snapshot_of : Fields → BudgetSnapshot F N
  snapshot_of raw = record {
    budget_class = show (
        or_json (get_json "budget_class" raw)
          (or_json (get_json "class" raw) (or_json (get_json "type" raw) (str ""))));
    budget_used = safe_float (or_json (get_json "budget_used" raw) (get_json "used" raw));
    budget_remaining =
        safe_float (or_json (get_json "budget_remaining" raw) (get_json "remaining" raw));
    budget_unit = first_text show (get_json "budget_unit" raw) (get_json "unit" raw);
    near_limit = truthy_json (or_json (get_json "near_limit" raw) (get_json "warning" raw));
    retry_after = safe_int (get_json "retry_after" raw);
  }

  unfoldable pub extract_budget_snapshots : Items → List (BudgetSnapshot F N)
  unfolding snapshot_of
  extract_budget_snapshots nil = []
  extract_budget_snapshots (cons (obj raw) vs) = snapshot_of raw ∷ extract_budget_snapshots vs
  extract_budget_snapshots (cons _ vs) = extract_budget_snapshots vs

  abbrev pub is_null : Json → Bool
  is_null null = true
  is_null _ = false

  unfoldable pub extract_retry_after : Fields → Option N
  unfolding get_field
  extract_retry_after d =
      let direct = or_json (get_json "retry_after" d) (get_json "retry_after_seconds" d) in
      let budget = object_of (or_json (get_json "budget" d) (get_json "budget_posture" d)) in
      if is_null direct then safe_int (get_json "retry_after" budget) else safe_int direct

  unfoldable pub joined_classes : List (BudgetSnapshot F N) → String
  joined_classes [] = ""
  joined_classes (s ∷ ss) =
      let rest = joined_classes ss in
      if not (truthy (s.budget_class))
      then rest
      else if truthy rest
      then s.budget_class <> (", " <> rest)
      else s.budget_class

  unfoldable pub infer_limit_class : List (BudgetSnapshot F N) → LimitOutcomeClass → String
  unfolding joined_classes
  infer_limit_class snapshots c = or_str (joined_classes snapshots) (elim c [
    | budget_exhausted ↦ "budget"
    | rate_limited ↦ "rate"
    | concurrency_limited ↦ "concurrency_slot"
    | _ ↦ ""
  ])

  -- `[str(r) for r in rs if r]`
  unfoldable pub shown : Items → List String
  shown nil = []
  shown (cons v vs) = let rest = shown vs in if truthy_json v then show v ∷ rest else rest

  abbrev pub or_list : List String → List String → List String
  or_list xs ys = if is_empty xs then ys else xs

  abbrev pub without_body :
      LimitOutcomeClass → Bool → Bool → List String → String → String → String → LimitResult F N
  without_body c is_terminal retry_safe guidance run_id request_id correlation_id = record {
    outcome_class = c;
    run_id = run_id;
    request_id = request_id;
    status = "";
    limit_class = "";
    budget_snapshots = [];
    partial_execution = false;
    is_terminal = is_terminal;
    retry_after = none;
    retry_safe = retry_safe;
    repair_guidance = guidance;
    correlation_id = correlation_id;
    raw_data = end;
  }

  -- The answer's body is empty.
  unfoldable pub parse_empty : Option ℕ → String → String → String → LimitResult F N
  unfolding map_budget_repair
  parse_empty code run_id request_id correlation_id =
      if is_rate_limit_code code
      then without_body rate_limited true true (map_budget_repair "rate_limited") run_id request_id
          correlation_id
      else if is_overload_code code
      then without_body deferred false true (map_budget_repair "deferred") run_id request_id
          correlation_id
      else without_body no_pressure_data true false [] run_id request_id correlation_id

  -- `str(d.get(k, "")).lower().strip()`
  abbrev pub normalized : String → Fields → String
  normalized k d = strip (lower (elim (get_field k d) [ none ↦ show (str "") | some v ↦ show v ]))

  -- The flag, given whether the budget is exhausted.
  unfoldable pub partial_of : Bool → Fields → Bool
  unfolding get_field
  partial_of exhausted d =
      if exhausted
      then elim (get_field "partial_execution" d) [ none ↦ true | some v ↦ truthy_json v ]
      else truthy_json (
          or_json (get_json "partial_execution" d)
            (or_json (get_json "partially_executed" d) (get_json "execution_started" d)))

  -- The tuple that sets `retry_safe`.
  abbrev pub is_retry_safe : LimitOutcomeClass → Bool
  is_retry_safe deferred = true
  is_retry_safe rate_limited = true
  is_retry_safe concurrency_limited = true
  is_retry_safe _ = false

  -- The result for an answer of the class `c`.
  unfoldable pub limit_result :
      LimitOutcomeClass → Fields → String → String → String → LimitResult F N
  unfolding map_budget_repair extract_budget_snapshots get_snapshots_raw extract_retry_after
      partial_of infer_limit_class shown strip
  limit_result c d run_id request_id correlation_id =
      let snapshots = extract_budget_snapshots (get_snapshots_raw d) in
      let server =
        shown
          (full_list (or_json (get_json "repair_guidance" d) (get_json "suggested_actions" d))) in
      record {
        outcome_class = c;
        run_id = or_str run_id (text_or (get_json "run_id" d) "");
        request_id = request_id;
        status = or_str (normalized "status" d) (text_or (get_json "status" d) "");
        limit_class =
            or_str (normalized "limit_class" d)
              (or_str (normalized "limit_outcome" d) (infer_limit_class snapshots c));
        budget_snapshots = snapshots;
        partial_execution = partial_of (is_exhausted c) d;
        is_terminal = not (is_deferred c);
        retry_after = extract_retry_after d;
        retry_safe = is_retry_safe c;
        repair_guidance = or_list server (map_budget_repair (outcome_value c));
        correlation_id = or_str correlation_id (text_or (get_json "correlation_id" d) "");
        raw_data = d;
      }

  unfoldable pub parse_limit_outcome :
      Fields → Option ℕ → String → String → String → LimitResult F N
  unfolding parse_empty limit_result classify_outcome
  parse_limit_outcome d code run_id request_id correlation_id =
      if is_end d
      then parse_empty code run_id request_id correlation_id
      else limit_result
          (classify_outcome (normalized "status" d) (normalized "limit_outcome" d) code d) d run_id
          request_id correlation_id
