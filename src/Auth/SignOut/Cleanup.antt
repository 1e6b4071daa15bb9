-- ===== src/Auth/SignOut/Cleanup.antt =====
-- sdk_client_25/auth_state.py: what a sign-out leaves behind, and when it fails to.
use keyhole_sdk.Base.{
  ◌≡◌, refl, ap, ◌∙◌, String, Bool, true, false, not, ◌&&◌, ◌||◌, Option, none, some, List, [], ◌∷◌,
  ◌⊎◌, inl, inr, truthy, is_some, map, filter, arith, Bool-cases, Sum-cases, if◌then◌else◌,
}
use keyhole_sdk.Base.Dict.{lookup, values}
use keyhole_sdk.Auth.Attempts.{AuthAttempt, AuthAttemptRegistry, cancel_all, is_active, open_ids}
use keyhole_sdk.Auth.Attempts.Invariant.{lookup-map_values}
use keyhole_sdk.Auth.SignOut.Revocation.{is_missed, Safe, revoke_all-Safe}
use keyhole_sdk.Auth.SignOut.{
  AuthSession, Reply, escaped, Outside, SignOutManager, LogoutResult, Revoked, judge_revocation,
  revoke, revoke_stored, revoke_all, remove_all, clear_error, clean_up, sign_out, configured,
}

abbrev pub is_escape : Reply → Bool
is_escape (escaped exc) = true
is_escape _ = false

-- The attempt is not completed.
abbrev pub is_open : AuthAttempt → Bool
is_open a = not (a.completed)

-- A completed attempt stays, any other is superseded and completed.
abbrev pub signed_out : Option AuthAttempt → Option AuthAttempt
signed_out none = none
signed_out (some a) =
    if a.completed then some a else some (record a { superseded = true; completed = true })

open_ids_lem :
    (d : List (String × AuthAttempt))
    → open_ids d ≡ map (λ (a : AuthAttempt). a.attempt_id) (filter is_open (values d))
unfolding open_ids values
open_ids_lem [] = refl
open_ids_lem ((k, a) ∷ d) = by_state (a.completed) (open_ids_lem d)
  where
    rest : List AuthAttempt
    rest = filter is_open (values d)

    by_state :
        (completed : Bool)
        → open_ids d ≡ map (λ (b : AuthAttempt). b.attempt_id) rest
        → (if completed then open_ids d else a.attempt_id ∷ open_ids d)
          ≡ map
              (λ (b : AuthAttempt). b.attempt_id)
              (elim (not completed) [ true ↦ a ∷ rest | false ↦ rest ])
    by_state true e = e
    by_state false e = ap (λ ids. a.attempt_id ∷ ids) e

cancel_all-signed_out :
    (id : String) (r : AuthAttemptRegistry)
    → lookup id ((cancel_all r).0.attempts) ≡ signed_out (lookup id (r.attempts))
unfolding cancel_all
cancel_all-signed_out id r =
    lookup-map_values _ id (r.attempts) ∙ by_option (lookup id (r.attempts))
  where
    by_option :
        (o : Option AuthAttempt)
        → (elim o [
          | none ↦ none
          | some a ↦
              some (if a.completed then a else record a { superseded = true; completed = true })
        ])
          ≡ signed_out o
    by_option none = refl
    by_option (some a) = ground arith

-- Whether a session is stored: a clearing that raises nothing leaves none, and neither the removal of a
-- path nor the event sink stores one.
pub record IsStore {W : Type 0} (o : Outside W) (stored : W → Bool) : Type 0 where
  pub clear_empties : (w : W) → (is_some (o.clear w).1 || not (stored (o.clear w).0)) ≡ true
  pub remove_adds_none :
      (path : String) (w : W) → stored w ≡ false → stored (o.remove path w).0 ≡ false
  pub event_adds_none : (w : W) → stored w ≡ false → stored (o.on_event w) ≡ false

module _ {W : Type 0} (o : Outside W) (m : SignOutManager) where
  -- What is left once a sign-out of a session has ended from a registry.
  unfoldable pub Leaves :
      (W → Bool)
      → Option AuthSession
      → AuthAttemptRegistry
      → (W × AuthAttemptRegistry) × (String ⊎ LogoutResult)
      → Type 0
  Leaves stored session r ((w, r'), inl exc) = r' ≡ r
  Leaves stored session r ((w, r'), inr result) =
      ((id : String) → lookup id (r'.attempts) ≡ signed_out (lookup id (r.attempts)))
      × ((id : String) → is_active id r' ≡ some false)
      × (result.cleared_pending_attempts
          ≡ map (λ (a : AuthAttempt). a.attempt_id) (filter is_open (values (r.attempts))))
      × ((result.cleared_credential_store && stored w) ≡ false)
      × (result.success ≡ (result.cleared_credential_store && not (is_some (result.error_message))))
      × ((result.success
            && is_missed o m session (result.revoked_refresh_token) (result.revoked_access_token))
          ≡ false)

  remove_all-empty :
      (stored : W → Bool) (k : IsStore o stored) (paths : List String) (w : W)
      → stored w ≡ false
      → stored (remove_all o m paths w).0 ≡ false
  unfolding remove_all
  remove_all-empty stored k [] w h = h
  remove_all-empty stored k (p ∷ ps) w h =
      remove_all-empty stored k ps (o.remove p w).0 (k.remove_adds_none p w h)

  cleared-empty :
      (stored : W → Bool) (k : IsStore o stored) (paths : List String) (w : W)
      → (not (is_some (o.clear w).1) && stored (o.on_event (remove_all o m paths (o.clear w).0).0))
        ≡ false
  cleared-empty stored k paths w = elim (Bool-cases (is_some (o.clear w).1)) [
    | inl e ↦ rw e refl
    | inr e ↦
        let empty : stored (o.clear w).0 ≡ false = ground (arith, e, k.clear_empties w) in
        rw e (k.event_adds_none _ (remove_all-empty stored k paths _ empty))
  ]

  -- `success` of a clean-up is false where a token was missed.
  success-Safe :
      (session : Option AuthSession) (exc : Option String) (v : Revoked)
      → Safe o m session (inr v)
      → (not (is_some exc)
          && not (is_some (clear_error o m exc (v.error)))
          && is_missed o m session (v.refresh) (v.access))
        ≡ false
  unfolding clear_error Safe
  success-Safe session none v h = h
  success-Safe session (some exc) v h = refl

  -- A sign-out either ends with a result: then every attempt that was not completed is superseded and
  -- completed, and these are the ones that are reported; every other attempt is as it was, and none is
  -- active. If the store counts as cleared, it holds no session, where a clearing that raises nothing
  -- leaves none. The sign-out counts as a success exactly if the store was cleared and there is no error,
  -- and then no token that is stored was left unrevoked, if revocation is configured. Or an exception
  -- leaves it, and then the registry is as it was.
  pub sign_out-Leaves :
      (stored : W → Bool) (k : IsStore o stored) (minted cid : String) (w : W)
      (r : AuthAttemptRegistry)
      → Leaves stored ((o.load w).1) r (sign_out o m minted cid w r)
  unfolding sign_out Leaves clean_up is_active cancel_all
  sign_out-Leaves stored k minted cid w r =
      let session = (o.load w).1 in
      let safe = revoke_all-Safe o m session (o.load w).0 in
      elim (Sum-cases (revoke_all o m session (o.load w).0).1) [
        | inl (exc, e) ↦ rw (e, sign_out) refl
        | inr (revoked, e) ↦
            let safe' : Safe o m session (inr revoked) = coe 0 1 (i. Safe o m session (e i)) safe in
            let w₂ = (revoke_all o m session (o.load w).0).0 in
            rw (e, sign_out)
              (
                λ id. cancel_all-signed_out id r,
                λ id. refl,
                open_ids_lem (r.attempts),
                cleared-empty stored k (m.extra_paths) w₂,
                refl,
                success-Safe session ((o.clear w₂).1) revoked safe',
              )
      ]

  revoke_all-escapes :
      (exc : String) (w : W) (s : AuthSession)
      → configured o m ≡ true
      → truthy (s.refresh_token) ≡ true
      → (o.post (s.refresh_token) "refresh_token" w).1 ≡ escaped exc
      → revoke_all o m (some s) w ≡ ((o.post (s.refresh_token) "refresh_token" w).0, inl exc)
  unfolding revoke_all revoke_stored revoke judge_revocation
  revoke_all-escapes exc w s c t p = simp (c, t, p)

  -- An exception of `session.post` that is neither a ConnectionError nor a Timeout leaves the whole
  -- sign-out at the refresh token: the registry stands as it was, and the store is not cleared.
  sign_out-escapes :
      (minted cid exc : String) (w : W) (r : AuthAttemptRegistry) (s : AuthSession)
      → configured o m ≡ true
      → (o.load w).1 ≡ some s
      → truthy (s.refresh_token) ≡ true
      → (o.post (s.refresh_token) "refresh_token" (o.load w).0).1 ≡ escaped exc
      → sign_out o m minted cid w r
        ≡ (((o.post (s.refresh_token) "refresh_token" (o.load w).0).0, r), inl exc)
  unfolding sign_out
  sign_out-escapes minted cid exc w r s c l t p =
      let e = revoke_all-escapes exc (o.load w).0 s c t p in
      rw (l, sign_out) (rw (e, sign_out) (rw (l, e) refl))
