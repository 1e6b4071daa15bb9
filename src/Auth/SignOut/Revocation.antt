-- ===== src/Auth/SignOut/Revocation.antt =====
-- sdk_client_25/auth_state.py: what the revocations of a sign-out report.
use keyhole_sdk.Base.{
  ◌≡◌, refl, String, Bool, true, false, not, ◌&&◌, ◌||◌, Option, none, some, ◌⊎◌, inl, inr, truthy,
  is_some, arith, Bool-cases, ◌==◌, if◌then◌else◌,
}
use keyhole_sdk.Base.Within.{truthy-append}
use keyhole_sdk.Auth.SignOut.{
  AuthSession, Reply, unreachable, escaped, answered, Outside, SignOutManager, Revoked,
  truthy_option, remember, judge_revocation, revoke, revoke_stored, revoke_all, configured,
}

module _ {W : Type 0} (o : Outside W) (m : SignOutManager) where
  -- Revocation is configured, and a token of the session was not revoked.
  abbrev pub is_missed : Option AuthSession → Bool → Bool → Bool
  is_missed none refresh access = false
  is_missed (some s) refresh access =
      truthy (m.revocation_endpoint)
      && truthy (m.client_id)
      && ((truthy (s.refresh_token) && not refresh) || (truthy (s.access_token) && not access))

  -- A revocation that fails has an error.
  Judged : String ⊎ (Bool × Option String) → Type 0
  Judged (inl exc) = Unit
  Judged (inr (ok, err)) = (ok || truthy_option err) ≡ true

  judge_revocation-Judged : (q : Reply) → Judged (judge_revocation o m q)
  unfolding judge_revocation Judged
  judge_revocation-Judged (unreachable exc) = truthy-append "revocation network error: " exc refl
  judge_revocation-Judged (escaped exc) = tt
  judge_revocation-Judged (answered code) = elim (Bool-cases (code == 200 || code == 204)) [
    | inl e ↦ simp e refl
    | inr e ↦ simp e (truthy-append "revocation HTTP " (o.show code) refl)
  ]

  -- An error is not forgotten, and a token that is not revoked leaves one.
  Told : String → Option String → String ⊎ (Bool × Option String) → Type 0
  Told token old (inl exc) = Unit
  Told token old (inr (ok, err)) =
      ((truthy token && not ok && not (is_some err)) ≡ false)
      × ((is_some old && not (is_some err)) ≡ false)

  remember-Told :
      (token : String) (old : Option String) (a : String ⊎ (Bool × Option String))
      → Judged a
      → Told token old
          (elim a [ inl exc ↦ inl exc | inr (ok, err) ↦ inr (ok, remember old ok err) ])
  unfolding Told Judged remember
  remember-Told token old (inl exc) h = tt
  remember-Told token none (inr (true, err)) h = (ground arith, refl)
  remember-Told token (some e) (inr (true, err)) h = (ground arith, refl)
  remember-Told token none (inr (false, none)) h = absurd (ground arith)
  remember-Told token (some e) (inr (false, none)) h = absurd (ground arith)
  remember-Told token none (inr (false, some err)) h = simp h (ground arith, refl)
  remember-Told token (some e) (inr (false, some err)) h = elim (Bool-cases (truthy e)) [
    | inl t ↦ simp (h, t) (ground arith, refl)
    | inr t ↦ simp (h, t) (ground arith, refl)
  ]

  none-Told :
      (token : String) (old : Option String)
      → truthy token ≡ false
      → Told token old (inr (false, old))
  unfolding Told
  none-Told token none t = (ground arith, refl)
  none-Told token (some e) t = (ground arith, refl)

  revoke_stored-Told :
      (token hint : String) (old : Option String) (w : W)
      → configured o m ≡ true
      → Told token old ((revoke_stored o m token hint old w).1)
  unfolding revoke_stored revoke
  revoke_stored-Told token hint old w c = elim (Bool-cases (truthy token)) [
    | inl t ↦
        simp (t, c) (remember-Told token old _ (judge_revocation-Judged (o.post token hint w).1))
    | inr t ↦ simp t (none-Told token old t)
  ]

  -- A token that was missed leaves an error.
  unfoldable pub Safe : Option AuthSession → String ⊎ Revoked → Type 0
  Safe session (inl exc) = Unit
  Safe session (inr v) =
      (not (is_some (v.error)) && is_missed session (v.refresh) (v.access)) ≡ false

  two-Safe :
      (s : AuthSession) (refresh access : Bool) (e e' : Option String)
      → Told (s.refresh_token) none (inr (refresh, e))
      → Told (s.access_token) e (inr (access, e'))
      → Safe (some s) (inr (record { refresh = refresh; access = access; error = e' }))
  unfolding Told Safe
  two-Safe s refresh access e e' (h, _) (g, k) = ground (arith, h, g, k)

  module _ (s : AuthSession) where
    after_second : Bool → W × (String ⊎ (Bool × Option String)) → W × (String ⊎ Revoked)
    after_second refresh b = elim (b.1) [
      | inl exc ↦ (b.0, inl exc)
      | inr (access, e) ↦ (b.0, inr (record { refresh = refresh; access = access; error = e }))
    ]

    after_second-Safe :
        (refresh : Bool) (e : Option String) (b : W × (String ⊎ (Bool × Option String)))
        → Told (s.refresh_token) none (inr (refresh, e))
        → Told (s.access_token) e (b.1)
        → Safe (some s) ((after_second refresh b).1)
    unfolding Safe after_second
    after_second-Safe refresh e (w, inl exc) h g = tt
    after_second-Safe refresh e (w, inr (access, e')) h g = two-Safe s refresh access e e' h g

    after_first : W × (String ⊎ (Bool × Option String)) → W × (String ⊎ Revoked)
    unfolding after_second
    after_first a = elim (a.1) [
      | inl exc ↦ (a.0, inl exc)
      | inr (refresh, e) ↦
          after_second refresh (revoke_stored o m (s.access_token) "access_token" e (a.0))
    ]

    after_first-Safe :
        (a : W × (String ⊎ (Bool × Option String)))
        → configured o m ≡ true
        → Told (s.refresh_token) none (a.1)
        → Safe (some s) ((after_first a).1)
    unfolding Safe after_first
    after_first-Safe (w, inl exc) c h = tt
    after_first-Safe (w, inr (refresh, e)) c h =
        after_second-Safe refresh e _ h (revoke_stored-Told (s.access_token) "access_token" e w c)

  pub revoke_all-Safe :
      (session : Option AuthSession) (w : W) → Safe session ((revoke_all o m session w).1)
  unfolding revoke_all Safe after_first after_second
  revoke_all-Safe none w = refl
  revoke_all-Safe (some s) w = by_configured (configured o m) refl
    where
      by_configured :
          (b : Bool)
          → configured o m ≡ b
          → Safe (some s) (
              (if b
                then after_first s (revoke_stored o m (s.refresh_token) "refresh_token" none w)
                else (w, inr (record { refresh = false; access = false; error = none }))).1)
      by_configured true c =
          after_first-Safe s _ c (revoke_stored-Told (s.refresh_token) "refresh_token" none w c)
      by_configured false c = ground (arith, c)
