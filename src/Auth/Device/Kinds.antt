-- ===== src/Auth/Device/Kinds.antt =====
-- sdk_client_25/device_flow.py: the kinds of outcome that one poll can have.
use keyhole_sdk.Base.{
  ℕ, ◌≡◌, refl, String, Option, none, some, ◌⊎◌, inl, inr, leb, ltb, ◌==◌, str_eq, ◌||◌, ◌&&◌,
  Bool-cases, Sum-cases, Option-cases,
}
use keyhole_sdk.Base.Json.{Json}
use keyhole_sdk.Auth.Device.{
  pending, slow_down, approved, expired, denied, network_error, Reply, unreachable, escaped,
  answered, DevicePollOutcome, poll_once, classify_error, classify_token, error_of,
}

-- What one poll can say.
pub data Kind {T : Type 0} (x : DevicePollOutcome T) : Type 0 where
  approving : (t : T) → x.status ≡ approved → x.token ≡ some t → Kind x
  denying : x.status ≡ denied → Kind x
  expiring : x.status ≡ expired → Kind x
  keeping : (x.status ≡ pending) ⊎ (x.status ≡ slow_down) → Kind x
  failing : x.status ≡ network_error → Kind x

abbrev pub Answer : {T : Type 0} → String ⊎ DevicePollOutcome T → Type 0
Answer (inl exc) = Unit
Answer (inr x) = Kind x

module _ {T : Type 0} (show : ℕ → String) (model_validate : Json → String ⊎ T) where
  classify_error-Kind :
      (code : ℕ) (error : String) → Kind (classify_error show model_validate code error)
  unfolding classify_error
  classify_error-Kind code error = elim (Bool-cases (str_eq error "authorization_pending")) [
    | inl e ↦ rw e (keeping (inl refl))
    | inr e ↦ rw e (elim (Bool-cases (str_eq error "slow_down")) [
      | inl f ↦ rw f (keeping (inr refl))
      | inr f ↦ rw f (elim (Bool-cases (str_eq error "access_denied")) [
        | inl g ↦ rw g (denying refl)
        | inr g ↦
            rw g
              (elim (Bool-cases
                (str_eq error "expired_token" || str_eq error "expired_device_code")) [
                  | inl h ↦ rw h (expiring refl)
                  | inr h ↦ rw h (elim (Bool-cases (leb 500 code && ltb code 600)) [
                    | inl k ↦ rw k (failing refl)
                    | inr k ↦ rw k (failing refl)
                  ])
                ])
      ])
    ])
  ]

  classify_token-Kind : (j : Option Json) → Kind (classify_token show model_validate j)
  unfolding classify_token
  classify_token-Kind none = failing refl
  classify_token-Kind (some j) = elim (Sum-cases (model_validate j)) [
    | inl (exc, e) ↦ rw (e, classify_token) (failing refl)
    | inr (t, e) ↦ rw (e, classify_token) (approving t refl refl)
  ]

  pub poll_once-Answer : (r : Reply) → Answer (poll_once show model_validate r)
  unfolding poll_once
  poll_once-Answer (unreachable exc) = failing refl
  poll_once-Answer (escaped exc) = tt
  poll_once-Answer (answered r) = elim (Bool-cases (r.status_code == 200)) [
    | inl c ↦ rw c (classify_token-Kind (r.json))
    | inr c ↦ rw c (elim (Option-cases (error_of r)) [
      | inl f ↦ rw f tt
      | inr (error, f) ↦ rw f (classify_error-Kind (r.status_code) error)
    ])
  ]
