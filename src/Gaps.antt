-- ===== src/Gaps.antt =====
-- gap_closure.py: the governed closure of a gap that the SDK asks for.
-- The upper case of a text and the number that a text of digits stands for are parameters. Numbers in
-- answers are natural.
pub mod Client
pub mod Payload
pub mod Closed
mod Tests
use keyhole_sdk.Base.{
  ℕ, String, Bool, true, false, not, ◌&&◌, ◌||◌, Option, none, some, List, [], ◌∷◌, elem, is_empty,
  truthy, str_eq, ◌==◌, ◌⊎◌, if◌then◌else◌,
}
use keyhole_sdk.Base.Json.{
  Json, null, bool, num, str, arr, obj, Items, nil, cons, Fields, end, field, get_field, get_json,
  truthy_json,
}

-- Why a closure stops. The last one is an error of the HTTP library, which passes through.
pub data Failure : Type 0 where
  gap_id_not_canonical unknown_reason unknown_classification evidence_missing : Failure
  repository_unread : Failure
  event_spine_unsafe : String → Failure
  unexpected_limit unpersisted_messages : ℕ → Failure
  other_gap : Failure
  gap_not_open : String → Failure
  has_closed_ts has_verdict_ref has_lineage : Failure
  missing_lineage : List String → Failure
  http_failure : ℕ → Failure
  body_not_json body_not_object : Failure
  connection_failed : Failure

abbrev pub acceptable_event_spine_status : List String
acceptable_event_spine_status = "PASS" ∷ "PASS_WITH_LEGACY_WARNINGS" ∷ []

abbrev pub object_or : Json → Fields → Fields
object_or (obj d) e = d
object_or _ e = e

-- `_first_string`
abbrev pub first_string : List Json → String
first_string [] = ""
first_string (str s ∷ vs) = if truthy s then s else first_string vs
first_string (_ ∷ vs) = first_string vs

-- `_unwrap`
abbrev pub unwrap_at : String → Fields → Fields
unwrap_at k d = object_or (get_json k d) d

unfoldable pub unwrap : Fields → Fields
unfolding get_field
unwrap d = unwrap_at "closure" (unwrap_at "gap" (unwrap_at "result" (unwrap_at "data" d)))

abbrev pub is_named : String → Json → Bool
is_named name (str s) = str_eq s name
is_named name _ = false

unfoldable pub listed_stream : String → Items → Option Fields
unfolding get_field
listed_stream name nil = none
listed_stream name (cons (obj d) vs) =
    let rest = listed_stream name vs in if is_named name (get_json "name" d) then some d else rest
listed_stream name (cons _ vs) = listed_stream name vs

abbrev pub stream_in : String → Json → Option Fields
stream_in name (obj streams) = elim (get_json name streams) [ obj d ↦ some d | _ ↦ none ]
stream_in name (arr vs) = listed_stream name vs
stream_in name _ = none

-- `_find_stream`
unfoldable pub find_stream : Fields → String → Fields
unfolding get_field listed_stream
find_stream d name = elim (stream_in name (get_json "streams" d)) [
  | some stream ↦ stream
  | none ↦ object_or (get_json name d) end
]

abbrev pub is_null : Json → Bool
is_null null = true
is_null _ = false

module _ (to_int : String → Option ℕ) where
  -- `_first_int`
  abbrev pub first_int : List Json → ℕ
  first_int [] = 0
  first_int (num n ∷ vs) = n
  first_int (str s ∷ vs) = elim (to_int s) [ some n ↦ n | none ↦ first_int vs ]
  first_int (_ ∷ vs) = first_int vs

  unfoldable pub spine_status : Fields → String
  unfolding get_field
  spine_status health = first_string (
      get_json "final_classification" health
      ∷ get_json "event_spine_status" health
      ∷ get_json "status" health
      ∷ get_json "final_classification" (object_or (get_json "data" health) end)
      ∷ [])

  unfoldable pub spine_limit : Fields → ℕ
  unfolding get_field find_stream
  spine_limit health =
      first_int
        (get_json "max_msgs" (find_stream health "KH_VERDICTS") ∷ get_json "max_msgs" health ∷ [])

  unfoldable pub unpersisted_count : Fields → ℕ
  unfolding get_field find_stream
  unpersisted_count health = first_int (
      get_json "unpersisted_message_count" health
      ∷ get_json "unpersisted_message_count" (find_stream health "KH_VERDICTS")
      ∷ [])

  -- What the check raises, if it does.
  unfoldable pub assert_event_spine_safe : Fields → Option Failure
  unfolding spine_status spine_limit unpersisted_count
  assert_event_spine_safe health =
      let status = spine_status health in
      let max_msgs = spine_limit health in
      let unpersisted = unpersisted_count health in
      if not (elem status acceptable_event_spine_status)
      then some (event_spine_unsafe status)
      else if not (max_msgs == 0) && not (max_msgs == 1000000)
      then some (unexpected_limit max_msgs)
      else if not (unpersisted == 0)
      then some (unpersisted_messages unpersisted)
      else none

unfoldable pub gap_id_of : Fields → String
unfolding get_field
gap_id_of d = first_string (get_json "gap_id" d ∷ get_json "id" d ∷ [])

module _ (upper : String → String) where
  unfoldable pub gap_status : Fields → String
  unfolding get_field
  gap_status d = upper (first_string (get_json "status" d ∷ get_json "state" d ∷ []))

  unfoldable pub assert_gap_open_for_closure : Fields → String → Option Failure
  unfolding unwrap gap_status gap_id_of get_field
  assert_gap_open_for_closure gap gap_id =
      let d = unwrap gap in
      if not (elem (gap_id_of d) ("" ∷ gap_id ∷ []))
      then some other_gap
      else if not (str_eq (gap_status d) "OPEN")
      then some (gap_not_open (gap_status d))
      else if not (is_null (get_json "closed_ts" d))
      then some has_closed_ts
      else if not (is_null (get_json "close_verdict_ref" d))
      then some has_verdict_ref
      else if truthy_json (get_json "convergence_closure_lineage" d)
      then some has_lineage
      else none

abbrev pub governed_fields : List String
governed_fields =
    "closed_ts" ∷ "close_verdict_ref" ∷ "convergence_closure_lineage" ∷ "gap_closure_history" ∷ []

unfoldable pub missing_fields : Fields → List String → List String
unfolding get_field
missing_fields d [] = []
missing_fields d (name ∷ names) =
    let rest = missing_fields d names in
    if not (truthy_json (get_json name d)) then name ∷ rest else rest

unfoldable pub assert_closure_response_governed : Fields → Option Failure
unfolding unwrap missing_fields
assert_closure_response_governed response =
    let missing = missing_fields (unwrap response) governed_fields in
    if not (is_empty missing) then some (missing_lineage missing) else none
