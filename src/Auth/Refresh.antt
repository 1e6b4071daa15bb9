-- ===== src/Auth/Refresh.antt =====
-- auth_bootstrap/token_refresh.py: the access token that a long-running program reads, renewed near
-- its end.
-- The credentials file is a part of the state: `none` where there is none, else its object. The
-- request, the clock (in seconds), the decoding of a padded text, and the environment are parameters.
-- A file that holds no object, and an address that is no text, are outside the model.
pub mod Kept
use keyhole_sdk.Base.{
  ℕ, zero, suc, ◌+◌, ◌-◌, String, Bool, true, false, not, ◌&&◌, ◌⊎◌, inl, inr, Option, none, some,
  ltb, leb, ◌==◌, truthy, str_eq, or_default, if◌then◌else◌,
}
use keyhole_sdk.Base.Json.{
  Json, null, bool, num, str, Fields, end, field, get_field, put_field, truthy_json,
}
use keyhole_sdk.Base.Text.{◌<>◌}

abbrev pub default_auth_server : String
default_auth_server = "https://auth.keyholesolution.com/realms/kh-prod"

abbrev pub default_client_id : String
default_client_id = "keyhole-cli"

-- The seconds before its end at which a token is renewed.
abbrev pub expiry_buffer_seconds : ℕ
expiry_buffer_seconds = 60

pub data RefreshError : Type 0 where
  file_not_found no_refresh_token request_failed http_error invalid_body missing_access_token
        invalid_expiry write_failed :
      RefreshError

-- What the token endpoint gives: a status code and, where the body is a JSON object, that object.
pub data Reply : Type 0 where
  unreachable : Reply
  answered : ℕ → Option Fields → Reply

pub record Outside (W : Type 0) : Type 0 where
  pub post : String → Fields → W → W × Reply
  pub time : W → ℕ
  -- The time so many seconds after now.
  pub expires_at : W → ℕ → String
  -- The JSON value that a padded base64 text stands for, where it stands for an object.
  pub decode : String → Option Fields
  -- `int(value)`, with none for its exception, and a negative number as 0.
  pub int : Json → Option ℕ
  pub client_id : Option String
  pub writes : Bool

pub record Run (W A : Type 0) : Type 0 where
  pub world : W
  pub file : Option Fields
  pub result : RefreshError ⊎ A

-- `token.split(".")[1]` and its parts.
unfoldable pub until_dot : String → String
until_dot String.[] = ""
until_dot (String.◌∷◌ c s) =
    let rest = until_dot s in
    let one = String.◌∷◌ c String.[] in if str_eq one "." then "" else one <> rest

unfoldable pub second_part : String → Option String
unfolding until_dot
second_part String.[] = none
second_part (String.◌∷◌ c s) =
    let rest = second_part s in
    if str_eq (String.◌∷◌ c String.[]) "." then some (until_dot s) else rest

-- `s + "=" * (-len(s) % 4)`, with `left` characters to the next multiple of four.
unfoldable pub pad : ℕ → String → String
pad zero String.[] = ""
pad (suc zero) String.[] = "="
pad (suc (suc zero)) String.[] = "=="
pad (suc (suc (suc n))) String.[] = "==="
pad zero (String.◌∷◌ c s) = String.◌∷◌ c (pad (suc (suc (suc zero))) s)
pad (suc n) (String.◌∷◌ c s) = String.◌∷◌ c (pad n s)

-- `s.rstrip("/")`
unfoldable pub strip_slashes : String → String
strip_slashes String.[] = ""
strip_slashes (String.◌∷◌ c s) =
    let rest = strip_slashes s in
    let one = String.◌∷◌ c String.[] in
    if str_eq one "/" && not (truthy rest) then "" else one <> rest

abbrev pub text_of : Option Json → String → String
text_of (some (str s)) d = s
text_of _ d = d

-- The number that `timedelta(seconds=value)` takes, with none for its TypeError.
abbrev pub seconds_of : Json → Option ℕ
seconds_of (num n) = some n
seconds_of (bool b) = some (if b then 1 else 0)
seconds_of _ = none

-- The codes at which `raise_for_status` raises.
abbrev pub is_http_error : ℕ → Bool
is_http_error code = leb 400 code && ltb code 600

module _ {W : Type 0} (o : Outside W) where
  -- `int(payload["exp"])`, with none for a KeyError too.
  abbrev pub int_of : Option Json → Option ℕ
  int_of none = none
  int_of (some j) = o.int j

  unfoldable pub jwt_exp : String → Option ℕ
  unfolding second_part pad
  jwt_exp token = elim (second_part token) [
    | none ↦ none
    | some part ↦ elim (o.decode (pad zero part)) [
      | none ↦ none
      | some payload ↦ int_of (get_field "exp" payload)
    ]
  ]

  unfoldable pub token_is_valid : String → W → Bool
  unfolding jwt_exp
  token_is_valid token w = elim (jwt_exp token) [
    | none ↦ false
    | some exp ↦ ltb (o.time w + expiry_buffer_seconds) exp
  ]

  -- `creds` with what the server sent, at the world `w`.
  unfoldable pub renewed : Fields → Fields → Json → ℕ → W → Fields
  unfolding put_field get_field
  renewed creds body access_token expires_in w =
      let creds₁ = put_field "access_token" access_token creds in
      let creds₂ =
        put_field "token_type" (or_default (get_field "token_type" body) (str "Bearer")) creds₁ in
      let creds₃ = put_field "expires_at" (str (o.expires_at w expires_in)) creds₂ in
      elim (get_field "refresh_token" body) [
        | none ↦ creds₃
        | some t ↦ put_field "refresh_token" t creds₃
      ]

  unfoldable pub renew_from : Fields → Fields → W → RefreshError ⊎ Fields
  unfolding renewed
  renew_from creds body w = elim (get_field "access_token" body) [
    | none ↦ inl missing_access_token
    | some t ↦ elim (seconds_of (or_default (get_field "expires_in" body) (num 300))) [
      | none ↦ inl invalid_expiry
      | some n ↦ inr (renewed creds body t n w)
    ]
  ]

  -- What is made of the reply to a request that ended at the world `w`.
  unfoldable pub read_reply : Fields → W → Reply → RefreshError ⊎ Fields
  unfolding renew_from
  read_reply creds w unreachable = inl request_failed
  read_reply creds w (answered code none) =
      if is_http_error code then inl http_error else inl invalid_body
  read_reply creds w (answered code (some body)) =
      if is_http_error code then inl http_error else renew_from creds body w

  abbrev pub refresh_request : Json → Fields
  refresh_request refresh_token = field "grant_type" (str "refresh_token") (
      field "client_id" (str (or_default (o.client_id) default_client_id))
        (field "refresh_token" refresh_token end))

  unfoldable pub asked : Fields → Json → W → W × Reply
  unfolding strip_slashes
  asked creds refresh_token w =
      let server =
        strip_slashes (text_of (get_field "auth_server_url" creds) default_auth_server) in
      o.post (server <> "/protocol/openid-connect/token") (refresh_request refresh_token) w

  unfoldable pub do_refresh : Fields → Json → W → W × (RefreshError ⊎ Fields)
  unfolding read_reply asked
  do_refresh creds refresh_token w =
      let answer = asked creds refresh_token w in (answer.0, read_reply creds (answer.0) (answer.1))

  abbrev pub over : {A : Type 0} → W → Option Fields → RefreshError ⊎ A → Run W A
  over w file r = record { world = w; file = file; result = r }

  -- The renewed credentials are saved.
  unfoldable pub stored : Fields → W → RefreshError ⊎ Fields → Run W Json
  stored creds w (inl e) = over w (some creds) (inl e)
  stored creds w (inr fresh) =
      if not (o.writes)
      then over w (some creds) (inl write_failed)
      else over w (some fresh) (inr (or_default (get_field "access_token" fresh) null))

  unfoldable pub refreshed : Fields → Json → W → Run W Json
  unfolding do_refresh stored
  refreshed creds refresh_token w =
      let answer = do_refresh creds refresh_token w in stored creds (answer.0) (answer.1)

  unfoldable pub get_fresh_token : Option Fields → W → Run W Json
  unfolding token_is_valid refreshed
  get_fresh_token none w = over w none (inl file_not_found)
  get_fresh_token (some creds) w =
      let access_token = text_of (get_field "access_token" creds) "" in
      let refresh_token = or_default (get_field "refresh_token" creds) null in
      if token_is_valid access_token w
      then over w (some creds) (inr (str access_token))
      else if not (truthy_json refresh_token)
      then over w (some creds) (inl no_refresh_token)
      else refreshed creds refresh_token w
