-- ===== src/Auth/Device.antt =====
-- sdk_client_25/device_flow.py: the device authorization grant. This file reads the answer that
-- opens a flow and the answer to one poll. `int(value)`, the validation of a token response, the
-- text of a number and the session's post are parameters. Numbers of JSON stand as the parser gives
-- them.
pub mod Poll
pub mod Kinds
pub mod Ends
pub mod Fuel
pub mod Opening
use keyhole_sdk.Base.{
  ℕ, ◌≤◌, max, String, Bool, true, false, not, ◌&&◌, ◌||◌, Option, none, some, ◌⊎◌, inl, inr, leb,
  ltb, ◌==◌, str_eq, truthy, or_str, if◌then◌else◌,
}
use keyhole_sdk.Base.Json.{
  Json, null, bool, num, str, arr, obj, Items, nil, cons, Fields, end, field, get_field,
}
use keyhole_sdk.Base.Int.{ℤ, pos, max_zero}
use keyhole_sdk.Base.Text.{◌<>◌, strip}

pub data DevicePollStatus : Type 0 where
  pending slow_down approved expired denied cancelled superseded network_error : DevicePollStatus

pub record DeviceAuthorizationResponse : Type 0 where
  pub device_code : String
  pub user_code : String
  pub verification_uri : String
  pub verification_uri_complete : Option String
  pub expires_in : ℕ
  pub interval : ℕ

-- `data.get(key)` where only a text that is not empty is accepted.
unfoldable pub non_empty : Option Json → Option String
non_empty (some (str s)) = if truthy s then some s else none
non_empty _ = none

abbrev optional_text : Option Json → Option String
optional_text (some (str s)) = some s
optional_text _ = none

-- `int(data.get(key, fallback))`, with none of `int` for its TypeError and its ValueError.
abbrev int_or : (Json → Option ℤ) → ℕ → Option Json → ℤ
int_or int fallback none = pos fallback
int_or int fallback (some j) = elim (int j) [ none ↦ pos fallback | some z ↦ z ]

unfoldable pub from_fields : (Json → Option ℤ) → Fields → String ⊎ DeviceAuthorizationResponse
from_fields int answer = elim (non_empty (get_field "device_code" answer)) [
  | none ↦ inl "device_code missing from device authorization response"
  | some device_code ↦ elim (non_empty (get_field "user_code" answer)) [
    | none ↦ inl "user_code missing from device authorization response"
    | some user_code ↦ elim (non_empty (get_field "verification_uri" answer)) [
      | none ↦ inl "verification_uri missing from device authorization response"
      | some verification_uri ↦ inr (record {
        device_code = device_code;
        user_code = user_code;
        verification_uri = verification_uri;
        verification_uri_complete = optional_text (get_field "verification_uri_complete" answer);
        expires_in = max 60 (max_zero (int_or int 900 (get_field "expires_in" answer)));
        interval = max 1 (max_zero (int_or int 5 (get_field "interval" answer)));
      })
    ]
  ]
]

-- A message stands for the ValueError that carries it.
unfoldable pub from_dict : (Json → Option ℤ) → Json → String ⊎ DeviceAuthorizationResponse
unfolding from_fields non_empty
from_dict int (obj answer) = from_fields int answer
from_dict int _ = inl "device authorization response must be a JSON object"

-- The part of a `requests` response that a poll reads; none of `json` is its ValueError.
pub record Response : Type 0 where
  pub status_code : ℕ
  pub content : Bool
  pub json : Option Json

-- `session.post`: a ConnectionError or a Timeout, another exception, or a response.
pub data Reply : Type 0 where
  unreachable escaped : String → Reply
  answered : Response → Reply

pub record DevicePollOutcome (T : Type 0) : Type 0 where
  pub status : DevicePollStatus
  pub token : Option T
  pub detail : String

abbrev pub outcome : {T : Type 0} → DevicePollStatus → String → DevicePollOutcome T
outcome status detail = record { status = status; token = none; detail = detail }

abbrev or_empty : Option Json → Json
or_empty none = obj end
or_empty (some j) = j

-- `(value or "").strip()`, with none for the AttributeError of a true value that is not a text.
unfoldable pub stripped : Option Json → Option String
stripped none = some ""
stripped (some null) = some ""
stripped (some (bool b)) = if b then none else some ""
stripped (some (num n)) = if n == 0 then some "" else none
stripped (some (str s)) = some (strip s)
stripped (some (arr nil)) = some ""
stripped (some (arr (cons j js))) = none
stripped (some (obj end)) = some ""
stripped (some (obj (field k j js))) = none

abbrev error_in : Json → Option String
unfolding stripped
error_in (obj answer) = stripped (get_field "error" answer)
error_in _ = some ""

unfoldable pub error_of : Response → Option String
unfolding error_in
error_of r = error_in (if r.content then or_empty r.json else obj end)

module _ {T : Type 0} (show : ℕ → String) (model_validate : Json → String ⊎ T) where
  unfoldable pub classify_error : ℕ → String → DevicePollOutcome T
  classify_error code error =
      if str_eq error "authorization_pending"
      then outcome pending "authorization_pending"
      else if str_eq error "slow_down"
      then outcome slow_down "slow_down"
      else if str_eq error "access_denied"
      then outcome denied "access_denied"
      else if str_eq error "expired_token" || str_eq error "expired_device_code"
      then outcome expired error
      else if leb 500 code && ltb code 600
      then outcome network_error ("server error " <> show code)
      else outcome network_error (
          "unexpected token endpoint response (HTTP "
          <> (show code <> (", error=" <> (or_str error "none" <> ")"))))

  unfoldable pub classify_token : Option Json → DevicePollOutcome T
  classify_token none = outcome network_error "token response is not valid JSON"
  classify_token (some answer) = elim (model_validate answer) [
    | inl exc ↦ outcome network_error ("unparseable token response: " <> exc)
    | inr token ↦ record { status = approved; token = some token; detail = "" }
  ]

  -- A message stands for the exception that leaves the poll.
  unfoldable pub poll_once : Reply → String ⊎ DevicePollOutcome T
  unfolding classify_error classify_token error_of
  poll_once (unreachable exc) = inr (outcome network_error exc)
  poll_once (escaped exc) = inl exc
  poll_once (answered r) =
      if r.status_code == 200 then inr (classify_token r.json) else elim (error_of r) [
        | none ↦ inl "AttributeError"
        | some error ↦ inr (classify_error r.status_code error)
      ]
