-- ===== src/Auth/Tests.antt =====
-- Runs of the authentication flows and their theorems at concrete inputs.
use keyhole_sdk.Base.{
  ℕ, ◌+◌, ◌≡◌, ◌≤◌, refl, String, Bool, true, false, ltb, Option, none, some, List, [], ◌∷◌, inr,
  arith, All,
}
use keyhole_sdk.Base.Dict.{lookup, insert}
use keyhole_sdk.Base.Json.{Json, str, obj, field, end}
use keyhole_sdk.Auth.Attempts.{
  AuthAttempt, new_registry, is_superseded, start, Request, ask_start, ask_complete, serve_all,
  serve, map_values, alter, complete,
}
use keyhole_sdk.Auth.Attempts.Invariant.{history-consistent}
use keyhole_sdk.Auth.Attempts.Late.{start-supersedes}
use keyhole_sdk.Auth.FlowSelection.{AuthPosture}
use keyhole_sdk.Auth.Device.{DeviceAuthorizationResponse, Reply, answered, unreachable}
use keyhole_sdk.Auth.Device.Poll.{Outside, poll_for_token}
use keyhole_sdk.Auth.Device.Ends.{JustifiedRun, poll_for_token-justified}
use keyhole_sdk.Auth.Device.Fuel.{IsMonotonic, IsPostCount, has_ended, poll_for_token-ends}
use keyhole_sdk.Base.Int.{pos}
use keyhole_sdk.Base.Json.{get_field}
use keyhole_sdk.Auth.Device.{from_dict}
use keyhole_sdk.Auth.SignOut
use keyhole_sdk.Auth.SignOut.Cleanup.{IsStore, Leaves, sign_out-Leaves}
use keyhole_sdk.Auth.Identity.{coerce, compare_fields, detect_identity_mismatch}
use keyhole_sdk.Auth.Identity.Agreement.{Agrees, Decides, detect_identity_mismatch-Decides}

abbrev history : List Request
history = ask_start "pkce" "a" "1" ∷ ask_complete "a" ∷ ask_start "device" "b" "2" ∷ []

abbrev attempt_of : String → String → String → AuthAttempt
attempt_of id flow at = record {
  attempt_id = id;
  flow = flow;
  created_at = at;
  superseded = false;
  completed = false;
}

stands-b : lookup "b" (serve_all history new_registry).attempts ≡ some (attempt_of "b" "device" "2")
unfolding serve_all serve start new_registry lookup insert map_values complete alter
stands-b = refl

history-consistent_example :
    ((serve_all history new_registry).active ≡ some "b")
    × ((attempt_of "b" "device" "2").attempt_id ≡ "b")
history-consistent_example =
    history-consistent history "b" (attempt_of "b" "device" "2") stands-b refl refl

start-supersedes_example :
    is_superseded "b" (
      serve_all (ask_complete "c" ∷ []) (start "device" "c" "3" (serve_all history new_registry)).0)
    ≡ true
start-supersedes_example =
    start-supersedes (serve_all history new_registry) (attempt_of "b" "device" "2") "b" "device" "c"
      "3" (ask_complete "c" ∷ []) stands-b refl refl (tt, tt)

abbrev posture : AuthPosture
posture = record {
  supported_flows = some ("password" ∷ "authorization_code_pkce" ∷ []);
  preferred_interactive_flow = none;
}

abbrev next_reply : List Reply → Reply
next_reply [] = unreachable "down"
next_reply (r ∷ rs) = r

abbrev rest : List Reply → List Reply
rest [] = []
rest (r ∷ rs) = rs

-- The world of a poll: the time, what the token endpoint will answer, and how often it was asked.
abbrev outside : Outside (ℕ × List Reply × ℕ) Json
outside = record {
  time = λ w. w.0;
  sleep = λ d w. (w.0 + d, w.1, w.2);
  post = λ code w. ((w.0, rest w.1, w.2 + 1), next_reply w.1);
  cancel_token = none;
  is_superseded = none;
  on_status = none;
  show = λ n. "n";
  model_validate = λ j. inr j;
}

outside-IsMonotonic : IsMonotonic outside
outside-IsMonotonic = record {
  post_time = λ code w. omega arith;
  ask_time = λ w. omega arith;
  tell_time = λ x w. omega arith;
  sleep_time = λ d w. omega arith;
}

outside-IsPostCount : IsPostCount outside (λ w. w.2)
outside-IsPostCount = record {
  post_counts = λ code w. refl;
  ask_keeps = λ w. refl;
  tell_keeps = λ x w. refl;
  sleep_keeps = λ d w. refl;
}

abbrev device : DeviceAuthorizationResponse
device = record {
  device_code = "d";
  user_code = "u";
  verification_uri = "https://auth";
  verification_uri_complete = none;
  expires_in = 60;
  interval = 5;
}

abbrev pending_then_token : List Reply
pending_then_token =
    answered (record {
      status_code = 400;
      content = true;
      json = some (obj (field "error" (str "authorization_pending") end));
    })
    ∷ answered (record { status_code = 200; content = true; json = some (str "token") })
    ∷ []

poll_for_token-justified_example :
    JustifiedRun outside (poll_for_token outside 61 device (0, pending_then_token, 0))
poll_for_token-justified_example =
    poll_for_token-justified outside 61 device (0, pending_then_token, 0)

poll_for_token-ends_example :
    (has_ended (poll_for_token outside 61 device (0, pending_then_token, 0)).ending ≡ true)
    × ((poll_for_token outside 61 device (0, pending_then_token, 0)).world.2
        ≤ 0 + (device.expires_in + 1))
poll_for_token-ends_example =
    poll_for_token-ends outside outside-IsMonotonic (λ w. w.2) outside-IsPostCount 61 device
      (0, pending_then_token, 0) (omega arith) (omega arith)

-- A boundary whose revocation endpoint fails: the sign-out ends with a result that is no success.
abbrev session : SignOut.AuthSession
session = record { access_token = "a"; refresh_token = "r" }

abbrev boundary : SignOut.Outside ℕ
boundary = record {
  load = λ w. (w, some session);
  post = λ token hint w. (w + 1, SignOut.answered 500);
  clear = λ w. (w + 100, none);
  remove = λ path w. (w, true);
  on_event = λ w. w;
  show = λ n. "n";
}

abbrev manager : SignOut.SignOutManager
manager = record {
  revocation_endpoint = "https://auth/revoke";
  client_id = "cli";
  extra_paths = [];
}

-- A session is stored until the store is cleared, which adds 100.
abbrev is_stored : ℕ → Bool
is_stored w = ltb w 100

boundary-IsStore : IsStore boundary is_stored
boundary-IsStore = record {
  clear_empties = λ w. ground arith;
  remove_adds_none = λ path w h. h;
  event_adds_none = λ w h. h;
}

sign_out-Leaves_example :
    Leaves boundary manager is_stored
      (some session)
      (serve_all history new_registry)
      (SignOut.sign_out boundary manager "id" "" 0 (serve_all history new_registry))
sign_out-Leaves_example =
    sign_out-Leaves boundary manager is_stored boundary-IsStore "id" "" 0
      (serve_all history new_registry)

abbrev user : String → List (String × Option String)
user id = ("user_id", some id) ∷ ("tenant_id", none) ∷ []

detect_identity_mismatch-Decides_example :
    Decides true
      (All (Agrees (coerce (some (user "ada"))) (coerce (some (user "bob")))) compare_fields)
      (detect_identity_mismatch "VS Code" "CLI" true (some (user "ada")) (some (user "bob")))
detect_identity_mismatch-Decides_example =
    detect_identity_mismatch-Decides "VS Code" "CLI" true (some (user "ada")) (some (user "bob"))

abbrev answered_form : Json
answered_form = obj (
    field "device_code" (str "d") (
      field "user_code" (str "u")
        (field "verification_uri" (str "https://auth") (field "expires_in" (str "0") end))))

abbrev opened : DeviceAuthorizationResponse
opened = record {
  device_code = "d";
  user_code = "u";
  verification_uri = "https://auth";
  verification_uri_complete = none;
  expires_in = 60;
  interval = 5;
}

answered_form-opens : from_dict (λ j. some (pos 0)) answered_form ≡ inr opened
unfolding from_dict get_field
answered_form-opens = refl
