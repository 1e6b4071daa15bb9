-- ===== src/Gaps/Client.antt =====
-- gap_closure.py: GapClosureClient. The session is a parameter, which threads a world.
use keyhole_sdk.Base.{
  ℕ, String, Option, none, some, List, [], ◌∷◌, truthy, leb, ◌⊎◌, inl, inr, if◌then◌else◌,
}
use keyhole_sdk.Base.Json.{Json, str, obj, Fields, end, field}
use keyhole_sdk.Base.Text.{◌<>◌}
use keyhole_sdk.Gaps.{
  Failure, http_failure, body_not_json, body_not_object, connection_failed, assert_event_spine_safe,
  assert_gap_open_for_closure, assert_closure_response_governed,
}
use keyhole_sdk.Gaps.Payload.{GapClosurePayload, payload_dict}

-- What the session gives: an exception, or a status code and the body where it is JSON.
pub data Response : Type 0 where
  raised : Response
  answered : ℕ → Option Json → Response

-- `_json_response`
unfoldable pub json_response : Response → Failure ⊎ Fields
json_response raised = inl connection_failed
json_response (answered code none) =
    if leb 400 code then inl (http_failure code) else inl body_not_json
json_response (answered code (some (obj d))) =
    if leb 400 code then inl (http_failure code) else inr d
json_response (answered code (some _)) =
    if leb 400 code then inl (http_failure code) else inl body_not_object

pub record Preflight : Type 0 where
  pub event_spine : Fields
  pub target_gap : Fields

pub record Session (W : Type 0) : Type 0 where
  pub get : String → List (String × String) → Fields → W → W × Response
  pub post : String → List (String × String) → Fields → W → W × Response

-- What follows a check of the value.
abbrev pub unless : {A : Type 0} → Option Failure → A → Failure ⊎ A
unless (some e) a = inl e
unless none a = inr a

-- What is made of the answer about the gap.
abbrev pub checked_gap :
    (String → String) → String → Fields → Failure ⊎ Fields → Failure ⊎ Preflight
checked_gap upper gap_id health (inl e) = inl e
checked_gap upper gap_id health (inr gap) =
    unless (assert_gap_open_for_closure upper gap gap_id)
      (record { event_spine = health; target_gap = gap })

abbrev pub checked_closure : Failure ⊎ Fields → Failure ⊎ Fields
checked_closure (inl e) = inl e
checked_closure (inr response) = unless (assert_closure_response_governed response) response

module _ {W : Type 0} (session : Session W) (mcp_url token : String) where
  abbrev pub headers : List (String × String)
  headers =
      ("Content-Type", "application/json")
      ∷ (if truthy token then ("Authorization", "Bearer " <> token) ∷ [] else [])

  abbrev pub post_run : Fields → W → W × (Failure ⊎ Fields)
  post_run payload w =
      let r = session.post (mcp_url <> "/mcp/v1/runs/start") headers payload w in
      (r.0, json_response (r.1))

  abbrev pub get_health : W → W × (Failure ⊎ Fields)
  get_health w =
      let r = session.get (mcp_url <> "/health/event-spine") [] end w in (r.0, json_response (r.1))

  abbrev pub get_gap : String → W → W × (Failure ⊎ Fields)
  get_gap gap_id w =
      post_run
        (field "run_type" (str "gaps.get")
          (field "params" (obj (field "gap_id" (str gap_id) end)) end))
        w

  unfoldable pub submit_closure : String → GapClosurePayload → W → W × (Failure ⊎ Fields)
  submit_closure now payload w =
      let request = field "run_type" (str "gaps.close") (
        field "params"
          (obj (
            field "gap_id" (str (payload.gap_id))
              (field "closure" (obj (payload_dict now payload)) end)))
          end) in
      let r = post_run request w in (r.0, checked_closure (r.1))

  module _ (upper : String → String) (to_int : String → Option ℕ) where
    abbrev pub after_check : String → Fields → W → Option Failure → W × (Failure ⊎ Preflight)
    after_check gap_id health w (some e) = (w, inl e)
    after_check gap_id health w none =
        let r = get_gap gap_id w in (r.0, checked_gap upper gap_id health (r.1))

    -- What follows the answer about the event spine.
    abbrev pub checked_health : String → W → Failure ⊎ Fields → W × (Failure ⊎ Preflight)
    checked_health gap_id w (inl e) = (w, inl e)
    checked_health gap_id w (inr health) =
        after_check gap_id health w (assert_event_spine_safe to_int health)

    unfoldable pub preflight : String → W → W × (Failure ⊎ Preflight)
    preflight gap_id w = let r = get_health w in checked_health gap_id (r.0) (r.1)
