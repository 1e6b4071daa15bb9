-- ===== src/Budget/Outcomes.antt =====
-- budget/models.py and budget/parser.py: the classes of limits, and the class of an answer.
use keyhole_sdk.Base.{
  ℕ, String, Bool, true, false, not, ◌&&◌, ◌||◌, Option, none, some, List, [], ◌∷◌, elem, truthy,
  ◌==◌, if◌then◌else◌,
}
use keyhole_sdk.Base.Json.{
  Json, arr, obj, Items, nil, cons, Fields, end, get_field, get_json, or_json, truthy_json, is_end,
}
use keyhole_sdk.Base.Text.{is_within}

pub data LimitOutcomeClass : Type 0 where
  success_with_budget_visibility budget_exhausted deferred rate_limited concurrency_limited
        unknown_pressure no_pressure_data :
      LimitOutcomeClass

abbrev pub outcome_value : LimitOutcomeClass → String
outcome_value success_with_budget_visibility = "success_with_budget_visibility"
outcome_value budget_exhausted = "budget_exhausted"
outcome_value deferred = "deferred"
outcome_value rate_limited = "rate_limited"
outcome_value concurrency_limited = "concurrency_limited"
outcome_value unknown_pressure = "unknown_pressure"
outcome_value no_pressure_data = "no_pressure_data"

-- `_TEMPORARY_OUTCOMES`
abbrev pub is_temporary : LimitOutcomeClass → Bool
is_temporary deferred = true
is_temporary rate_limited = true
is_temporary concurrency_limited = true
is_temporary _ = false

abbrev pub is_deferred : LimitOutcomeClass → Bool
is_deferred deferred = true
is_deferred _ = false

abbrev pub is_exhausted : LimitOutcomeClass → Bool
is_exhausted budget_exhausted = true
is_exhausted _ = false

pub record BudgetSnapshot (F N : Type 0) : Type 0 where
  pub budget_class : String
  pub budget_used : Option F
  pub budget_remaining : Option F
  pub budget_unit : String
  pub near_limit : Bool
  pub retry_after : Option N

pub record LimitResult (F N : Type 0) : Type 0 where
  pub outcome_class : LimitOutcomeClass
  pub run_id : String
  pub request_id : String
  pub status : String
  pub limit_class : String
  pub budget_snapshots : List (BudgetSnapshot F N)
  pub partial_execution : Bool
  pub is_terminal : Bool
  pub retry_after : Option N
  pub retry_safe : Bool
  pub repair_guidance : List String
  pub correlation_id : String
  pub raw_data : Fields

abbrev pub is_pressure : {F N : Type 0} → LimitResult F N → Bool
is_pressure r = elim (r.outcome_class) [
  | success_with_budget_visibility ↦ false
  | no_pressure_data ↦ false
  | _ ↦ true
]

abbrev pub rate_limit_statuses : List String
rate_limit_statuses = "rate_limited" ∷ "ratelimited" ∷ "throttled" ∷ "too_many_requests" ∷ []

abbrev pub concurrency_limit_statuses : List String
concurrency_limit_statuses =
    "concurrency_limited" ∷ "concurrency_exceeded" ∷ "slot_unavailable" ∷ "capacity_exceeded" ∷ []

abbrev pub budget_exhausted_statuses : List String
budget_exhausted_statuses =
    "budget_exhausted" ∷ "budget_exceeded" ∷ "limit_exceeded" ∷ "resource_exhausted"
    ∷ "quota_exceeded" ∷ []

abbrev pub deferred_statuses : List String
deferred_statuses = "deferred" ∷ "deferred_pressure" ∷ "held" ∷ "admission_held" ∷ "queue_full" ∷ []

-- The four families of a status or a limit outcome.
unfoldable pub family_of : String → Option LimitOutcomeClass
unfolding is_within
family_of s =
    if elem s budget_exhausted_statuses || is_within "budget_exhaust" s
    then some budget_exhausted
    else if elem s rate_limit_statuses || is_within "rate_limit" s || is_within "throttl" s
    then some rate_limited
    else if elem s concurrency_limit_statuses || is_within "concurrency" s
    then some concurrency_limited
    else if elem s deferred_statuses || is_within "defer" s
    then some deferred
    else none

abbrev pub is_rate_limit_code : Option ℕ → Bool
is_rate_limit_code none = false
is_rate_limit_code (some c) = c == 429

abbrev pub is_overload_code : Option ℕ → Bool
is_overload_code none = false
is_overload_code (some c) = c == 503 || c == 529

abbrev pub full_list : Json → Items
full_list (arr vs) = vs
full_list _ = nil

-- The value alone, if it is an object that is not empty.
abbrev pub full_object : Json → Items
full_object (obj d) = if is_end d then nil else cons (obj d) nil
full_object _ = nil

-- The first of the lists that is not empty.
abbrev pub first_of : Items → Items → Items
first_of nil rest = rest
first_of (cons v vs) rest = cons v vs

unfoldable pub get_snapshots_raw : Fields → Items
unfolding get_field
get_snapshots_raw d = first_of (full_list (get_json "budget_snapshots" d)) (
    first_of (full_list (get_json "budgets" d)) (
      first_of (full_list (get_json "budget_dimensions" d)) (
        first_of (full_object (get_json "budget" d)) (
          first_of (full_object (get_json "budget_posture" d))
            (full_object (get_json "budget_snapshot" d))))))

abbrev pub is_nil : Items → Bool
is_nil nil = true
is_nil (cons v vs) = false

abbrev pub object_of : Json → Fields
object_of (obj d) = d
object_of _ = end

-- The outcome by a near limit or by the snapshots.
unfoldable pub visibility_of : String → Fields → LimitOutcomeClass
unfolding get_snapshots_raw
visibility_of raw_status d =
    let budget = object_of (or_json (get_json "budget" d) (get_json "budget_posture" d)) in
    let near = truthy_json (or_json (get_json "near_limit" budget) (get_json "warning" budget)) in
    let is_done = elem raw_status ("success" ∷ "completed" ∷ "ok" ∷ []) in
    if not (is_end budget) && (near || is_done)
    then success_with_budget_visibility
    else if not (is_nil (get_snapshots_raw d)) && (is_done || not (truthy raw_status))
    then success_with_budget_visibility
    else no_pressure_data

unfoldable pub classify_outcome : String → String → Option ℕ → Fields → LimitOutcomeClass
unfolding family_of visibility_of
classify_outcome raw_status limit_outcome http_status_code d =
    if truthy limit_outcome
    then elim (family_of limit_outcome) [
      | some c ↦ c
      | none ↦
          if is_within "success" limit_outcome || is_within "budget_visibility" limit_outcome
          then success_with_budget_visibility
          else unknown_pressure
    ]
    else if is_rate_limit_code http_status_code
    then rate_limited
    else if is_overload_code http_status_code
    then unknown_pressure
    else elim (family_of raw_status) [ some c ↦ c | none ↦ visibility_of raw_status d ]
