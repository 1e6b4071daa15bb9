-- ===== src/Auth/Refresh/Kept.antt =====
-- auth_bootstrap/token_refresh.py: what reading a token leaves of the credentials file.
use keyhole_sdk.Base.{
  ℕ, ◌≡◌, refl, sym, ap, ◌∙◌, String, true, false, ◌⊎◌, inl, inr, Option, none, some, List, [], ◌∷◌,
  elem, str_eq, or_default, arith, Bool-cases, Option-cases, eq_iff, absurd_left, right_injective,
}
use keyhole_sdk.Base.Json.{
  Json, null, bool, num, str, arr, obj, Fields, get_field, put_field, get_field-put_field,
  truthy_json,
}
use keyhole_sdk.Auth.Refresh.{
  RefreshError, missing_access_token, invalid_expiry, Reply, unreachable, answered, Outside, Run,
  seconds_of, text_of, jwt_exp, token_is_valid, second_part, renewed, renew_from, read_reply, asked,
  stored, do_refresh, do_refresh, refreshed, get_fresh_token,
}

-- The keys that a renewal may set.
abbrev pub managed : List String
managed = "access_token" ∷ "token_type" ∷ "expires_at" ∷ "refresh_token" ∷ []

-- The token stands in the credentials, which agree with the others on all keys but the managed ones.
abbrev pub IsRenewal : Fields → Fields → Json → Type 0
IsRenewal creds fresh token =
    (get_field "access_token" fresh ≡ some token)
    × ((k : String) → elem k managed ≡ false → get_field k fresh ≡ get_field k creds)

put_field-other :
    (k j : String) (v : Json) (d : Fields)
    → str_eq k j ≡ false
    → get_field k (put_field j v d) ≡ get_field k d
put_field-other k j v d h = ground (arith, eq_iff k j, eq_iff j k, get_field-put_field k j v d)

stamped-IsRenewal :
    (creds : Fields) (token kind until : Json)
    → IsRenewal creds
        (put_field "expires_at" until
          (put_field "token_type" kind (put_field "access_token" token creds)))
        token
stamped-IsRenewal creds token kind until = (
  put_field-other "access_token" "expires_at" until _ refl
      ∙ put_field-other "access_token" "token_type" kind _ refl
      ∙ get_field-put_field "access_token" "access_token" token creds,
  λ k h.
      put_field-other k "expires_at" until _ (ground arith)
      ∙ put_field-other k "token_type" kind _ (ground arith)
      ∙ put_field-other k "access_token" token creds (ground arith),
)

put_field-IsRenewal :
    (creds fresh : Fields) (token t : Json)
    → IsRenewal creds fresh token
    → IsRenewal creds (put_field "refresh_token" t fresh) token
put_field-IsRenewal creds fresh token t (a, k) = (
  put_field-other "access_token" "refresh_token" t fresh refl ∙ a,
  λ j h. put_field-other j "refresh_token" t fresh (ground arith) ∙ k j h,
)

from_parts :
    (p : Option Json) (q : Option ℕ) (f : Json → ℕ → Fields) (fresh : Fields)
    → elim p [
      | none ↦ inl missing_access_token
      | some t ↦ elim q [ none ↦ inl invalid_expiry | some n ↦ inr (f t n) ]
    ]
      ≡ inr fresh
    → (t : Json) × (n : ℕ) × (fresh ≡ f t n)
from_parts none q f fresh h = absurd_left h
from_parts (some t) none f fresh h = absurd_left h
from_parts (some t) (some n) f fresh h = (t, n, ground arith)

module _ {W : Type 0} (o : Outside W) where
  abbrev stamped : Fields → Fields → Json → ℕ → W → Fields
  stamped creds body token n w = put_field "expires_at" (str (o.expires_at w n)) (
      put_field "token_type" (or_default (get_field "token_type" body) (str "Bearer"))
        (put_field "access_token" token creds))

  renewed-plain :
      (creds body : Fields) (token : Json) (n : ℕ) (w : W)
      → get_field "refresh_token" body ≡ none
      → renewed o creds body token n w ≡ stamped creds body token n w
  unfolding renewed
  renewed-plain creds body token n w e = rw (e, renewed) refl

  renewed-rotated :
      (creds body : Fields) (token t : Json) (n : ℕ) (w : W)
      → get_field "refresh_token" body ≡ some t
      → renewed o creds body token n w ≡ put_field "refresh_token" t (stamped creds body token n w)
  unfolding renewed
  renewed-rotated creds body token t n w e = rw (e, renewed) refl

  renewed-IsRenewal :
      (creds body : Fields) (token : Json) (n : ℕ) (w : W)
      → IsRenewal creds (renewed o creds body token n w) token
  renewed-IsRenewal creds body token n w = elim (Option-cases (get_field "refresh_token" body)) [
    | inl e ↦ rw (renewed-plain creds body token n w e) (stamped-IsRenewal creds token _ _)
    | inr (t, e) ↦
        rw (renewed-rotated creds body token t n w e)
          (put_field-IsRenewal creds _ token t (stamped-IsRenewal creds token _ _))
  ]

  valid-present :
      (p : Option Json) (w : W)
      → token_is_valid o (text_of p "") w ≡ true
      → p ≡ some (str (text_of p ""))
  unfolding token_is_valid
  valid-present none w h = unfold jwt_exp in unfold second_part in ground arith
  valid-present (some (str s)) w h = refl
  valid-present (some null) w h = unfold jwt_exp in unfold second_part in ground arith
  valid-present (some (num n)) w h = unfold jwt_exp in unfold second_part in ground arith
  valid-present (some (bool b)) w h = unfold jwt_exp in unfold second_part in ground arith
  valid-present (some (arr a)) w h = unfold jwt_exp in unfold second_part in ground arith
  valid-present (some (obj d)) w h = unfold jwt_exp in unfold second_part in ground arith

  renew_from-inr :
      (creds body fresh : Fields) (w : W)
      → renew_from o creds body w ≡ inr fresh
      → (t : Json) × (n : ℕ) × (fresh ≡ renewed o creds body t n w)
  unfolding renew_from
  renew_from-inr creds body fresh w h =
      from_parts (get_field "access_token" body)
        (seconds_of (or_default (get_field "expires_in" body) (num 300)))
        (λ t n. renewed o creds body t n w) fresh h

  renew_from-IsRenewal :
      (creds body fresh : Fields) (w : W)
      → renew_from o creds body w ≡ inr fresh
      → IsRenewal creds fresh (or_default (get_field "access_token" fresh) null)
  renew_from-IsRenewal creds body fresh w h =
      let (t, n, e) = renew_from-inr creds body fresh w h in
      let (a, k) = renewed-IsRenewal creds body t n w in
      rw e (a ∙ sym (ap (λ p. some (or_default p null)) a), k)

  from_reply :
      (creds fresh : Fields) (w : W) (r : Reply)
      → read_reply o creds w r ≡ inr fresh
      → (body : Fields) × (renew_from o creds body w ≡ inr fresh)
  unfolding read_reply
  from_reply creds fresh w unreachable h = absurd_left h
  from_reply creds fresh w (answered code none) h = ground arith
  from_reply creds fresh w (answered code (some b)) h = (b, ground arith)

  read_reply-IsRenewal :
      (creds fresh : Fields) (w : W) (r : Reply)
      → read_reply o creds w r ≡ inr fresh
      → IsRenewal creds fresh (or_default (get_field "access_token" fresh) null)
  read_reply-IsRenewal creds fresh w r h =
      let (body, e) = from_reply creds fresh w r h in renew_from-IsRenewal creds body fresh w e

  valid-IsRead :
      (creds : Fields) (w : W)
      → token_is_valid o (text_of (get_field "access_token" creds) "") w ≡ true
      → IsRenewal creds creds (str (text_of (get_field "access_token" creds) ""))
  valid-IsRead creds w v = (valid-present (get_field "access_token" creds) w v, λ k h. refl)

  -- What reading a token did to the credentials `creds`, read at the world `w`.
  abbrev pub IsRead : Fields → Run W Json → Type 0
  IsRead creds run =
      ((e : RefreshError) → run.result ≡ inl e → run.file ≡ some creds)
      × ((token : Json)
          → run.result ≡ inr token
          → (fresh : Fields) × (run.file ≡ some fresh) × IsRenewal creds fresh token)

  stored-IsRead :
      (creds : Fields) (w : W) (r : RefreshError ⊎ Fields)
      → ((fresh : Fields)
          → r ≡ inr fresh
          → IsRenewal creds fresh (or_default (get_field "access_token" fresh) null))
      → IsRead creds (stored o creds w r)
  unfolding stored
  stored-IsRead creds w (inl e) k = (λ f h. refl, λ token h. absurd_left h)
  stored-IsRead creds w (inr fresh) k = elim (Bool-cases (o.writes)) [
    | inr b ↦ simp b (λ f h. refl, λ token h. absurd_left h)
    | inl b ↦ simp b (
      λ f h. absurd_left (sym h),
      λ token h.
          (fresh, refl, coe 0 1 (i. IsRenewal creds fresh (right_injective h i)) (k fresh refl)),
    )
  ]

  refreshed-IsRead : (creds : Fields) (t : Json) (w : W) → IsRead creds (refreshed o creds t w)
  unfolding refreshed do_refresh
  refreshed-IsRead creds t w =
      stored-IsRead creds ((asked o creds t w).0) _
        (λ fresh h. read_reply-IsRenewal creds fresh _ ((asked o creds t w).1) h)

  -- Reading a token: an error leaves the credentials file as it was. A token that is returned stands
  -- in the file afterwards, as its access token, and the file has what it had under every key but the
  -- four that a renewal may set. If the stored token has more than a minute left, the file is as it
  -- was and no request is made.
  pub get_fresh_token-IsRead :
      (creds : Fields) (w : W)
      → let run = get_fresh_token o (some creds) w in
        IsRead creds run
        × (token_is_valid o (text_of (get_field "access_token" creds) "") w ≡ true
            → (run.world ≡ w) × (run.file ≡ some creds))
  unfolding get_fresh_token
  get_fresh_token-IsRead creds w =
      elim (Bool-cases (token_is_valid o (text_of (get_field "access_token" creds) "") w)) [
        | inl v ↦ simp v (
          (
            λ e h. refl,
            λ token h. (
              creds,
              refl,
              coe 0 1 (i. IsRenewal creds creds (right_injective h i)) (valid-IsRead creds w v),
            ),
          ),
          λ h. (refl, refl),
        )
        | inr v ↦
            elim (Bool-cases (truthy_json (or_default (get_field "refresh_token" creds) null))) [
              | inr t ↦ simp (v, t) ((λ e h. refl, λ token h. absurd_left h), λ h. (refl, refl))
              | inl t ↦ simp (v, t) (refreshed-IsRead creds _ w, λ h. ground arith)
            ]
      ]
