-- ===== src/Auth/RefreshTests.antt =====
-- Tokens that are read and renewed.
use keyhole_sdk.Base.{ℕ, ◌+◌, ◌≡◌, refl, true, none, some}
use keyhole_sdk.Base.Json.{num, str, Fields, end, field, get_field, put_field}
use keyhole_sdk.Auth.Refresh.{
  Outside, answered, until_dot, second_part, pad, strip_slashes, text_of, jwt_exp, token_is_valid,
  renewed, renew_from, read_reply, asked, do_refresh, stored, refreshed, get_fresh_token,
}
use keyhole_sdk.Auth.Refresh.Kept.{IsRead, get_fresh_token-IsRead}

-- A world that counts the requests; the tokens end at second 1000.
abbrev server : ℕ → Outside ℕ
server now = record {
  post = λ url body n. (
    n + 1,
    answered 200 (some (field "access_token" (str "d.e.f") (field "expires_in" (num 60) end))),
  );
  time = λ n. now;
  expires_at = λ n s. "soon";
  decode = λ s. some (field "exp" (num 1000) end);
  int = λ j. elim j [ num n ↦ some n | _ ↦ none ];
  client_id = none;
  writes = true;
}

abbrev stored_creds : Fields
stored_creds = field "access_token" (str "a.b.c") (field "refresh_token" (str "r") end)

not-renewed : (get_fresh_token (server 939) (some stored_creds) 0).world ≡ 0
unfolding get_fresh_token token_is_valid jwt_exp second_part until_dot pad get_field
not-renewed = refl

renewed_creds :
    (get_fresh_token (server 940) (some stored_creds) 0).file
    ≡ some (
        field "access_token" (str "d.e.f") (
          field "refresh_token"
            (str "r")
            (field "token_type" (str "Bearer") (field "expires_at" (str "soon") end))))
unfolding get_fresh_token token_is_valid jwt_exp second_part until_dot pad get_field put_field
    refreshed stored do_refresh asked read_reply renew_from renewed strip_slashes
renewed_creds = refl

get_fresh_token-IsRead_example :
    let run = get_fresh_token (server 940) (some stored_creds) 0 in
    IsRead (server 940) stored_creds run
    × (token_is_valid (server 940) (text_of (get_field "access_token" stored_creds) "") 0 ≡ true
        → (run.world ≡ 0) × (run.file ≡ some stored_creds))
get_fresh_token-IsRead_example = get_fresh_token-IsRead (server 940) stored_creds 0
