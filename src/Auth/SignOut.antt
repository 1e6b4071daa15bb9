-- ===== src/Auth/SignOut.antt =====
-- sdk_client_25/auth_state.py: `SignOutManager`. The credential store, the boundary's revocation
-- endpoint, the removal of a path and the event sink are parameters on a world `W`; the registry of
-- attempts is the one of Auth/Attempts.antt.
pub mod Revocation
pub mod Cleanup
use keyhole_sdk.Base.{
  ℕ, String, Bool, true, false, not, ◌&&◌, ◌||◌, Option, none, some, List, [], ◌∷◌, ◌⊎◌, inl, inr,
  ◌==◌, truthy, or_str, if◌then◌else◌, is_some,
}
use keyhole_sdk.Base.Text.{◌<>◌}
use keyhole_sdk.Auth.Attempts.{AuthAttemptRegistry, cancel_all}

-- The tokens of a stored session; an absent token and an empty one are both false.
pub record AuthSession : Type 0 where
  pub access_token : String
  pub refresh_token : String

-- `session.post`: a ConnectionError or a Timeout, another exception, or a status code.
pub data Reply : Type 0 where
  unreachable escaped : String → Reply
  answered : ℕ → Reply

pub record Outside (W : Type 0) : Type 0 where
  -- `credential_store.load`, with none for an exception too.
  pub load : W → W × Option AuthSession
  pub post : String → String → W → W × Reply
  -- `credential_store.clear`, with the message of an exception.
  pub clear : W → W × Option String
  -- Whether the path was there and was removed without an exception.
  pub remove : String → W → W × Bool
  pub on_event : W → W
  pub show : ℕ → String

pub record SignOutManager : Type 0 where
  pub revocation_endpoint : String
  pub client_id : String
  pub extra_paths : List String

pub record LogoutResult : Type 0 where
  pub success : Bool
  pub revoked_refresh_token : Bool
  pub revoked_access_token : Bool
  pub cleared_credential_store : Bool
  pub cleared_pending_attempts : List String
  pub cleared_extra_paths : List String
  pub error_message : Option String
  pub correlation_id : String

-- What is known after the revocations.
pub record Revoked : Type 0 where
  pub refresh : Bool
  pub access : Bool
  pub error : Option String

-- `bool(e)` of an optional text.
abbrev pub truthy_option : Option String → Bool
truthy_option none = false
truthy_option (some e) = truthy e

-- The error that is kept: the first one.
unfoldable pub remember : Option String → Bool → Option String → Option String
remember old ok err = if not ok && truthy_option err && not (truthy_option old) then err else old

module _ {W : Type 0} (o : Outside W) (m : SignOutManager) where
  abbrev pub configured : Bool
  configured = truthy (m.revocation_endpoint) && truthy (m.client_id)

  -- The answer to one revocation, or the exception that leaves it.
  unfoldable pub judge_revocation : Reply → String ⊎ (Bool × Option String)
  judge_revocation (unreachable exc) = inr (false, some ("revocation network error: " <> exc))
  judge_revocation (escaped exc) = inl exc
  judge_revocation (answered code) =
      if code == 200 || code == 204
      then inr (true, none)
      else inr (false, some ("revocation HTTP " <> o.show code))

  unfoldable pub revoke : String → String → W → W × (String ⊎ (Bool × Option String))
  unfolding judge_revocation
  revoke token hint w =
      if configured
      then (let (w', reply) = o.post token hint w in (w', judge_revocation reply))
      else (w, inr (false, none))

  -- A token that is stored is revoked; `old` is the error so far.
  unfoldable pub revoke_stored :
      String → String → Option String → W → W × (String ⊎ (Bool × Option String))
  unfolding revoke remember
  revoke_stored token hint old w =
      if truthy token
      then (let (w', answer) = revoke token hint w in
          (w', elim answer [ inl exc ↦ inl exc | inr (ok, err) ↦ inr (ok, remember old ok err) ]))
      else (w, inr (false, old))

  unfoldable pub revoke_all : Option AuthSession → W → W × (String ⊎ Revoked)
  unfolding revoke_stored
  revoke_all none w = (w, inr (record { refresh = false; access = false; error = none }))
  revoke_all (some s) w =
      if configured
      then (let (w₁, refreshed) = revoke_stored (s.refresh_token) "refresh_token" none w in
          elim refreshed [
            | inl exc ↦ (w₁, inl exc)
            | inr (refresh, error₁) ↦
                let (w₂, accessed) = revoke_stored (s.access_token) "access_token" error₁ w₁ in
                elim accessed [
                  | inl exc ↦ (w₂, inl exc)
                  | inr (access, error₂) ↦
                      (w₂, inr (record { refresh = refresh; access = access; error = error₂ }))
                ]
          ])
      else (w, inr (record { refresh = false; access = false; error = none }))

  unfoldable pub remove_all : List String → W → W × List String
  remove_all [] w = (w, [])
  remove_all (path ∷ paths) w =
      let (w₁, removed) = o.remove path w in
      let (w₂, rest) = remove_all paths w₁ in (w₂, if removed then path ∷ rest else rest)

  -- The error after the store is cleared.
  unfoldable pub clear_error : Option String → Option String → Option String
  clear_error none error = error
  clear_error (some exc) error =
      if truthy_option error then error else some ("credential clear failed: " <> exc)

  -- What follows the revocations.
  unfoldable pub clean_up :
      String → Revoked → W → AuthAttemptRegistry → (W × AuthAttemptRegistry) × LogoutResult
  unfolding remove_all clear_error
  clean_up cid revoked w r =
      let (r', cancelled) = cancel_all r in
      let (w₁, exc) = o.clear w in
      let (w₂, extra) = remove_all (m.extra_paths) w₁ in
      let error = clear_error exc (revoked.error) in
      (
        (o.on_event w₂, r'),
        record {
          success = not (is_some exc) && not (is_some error);
          revoked_refresh_token = revoked.refresh;
          revoked_access_token = revoked.access;
          cleared_credential_store = not (is_some exc);
          cleared_pending_attempts = cancelled;
          cleared_extra_paths = extra;
          error_message = error;
          correlation_id = cid;
        },
      )

  -- A message stands for the exception that leaves the sign-out; `minted` is the new uuid.
  unfoldable pub sign_out :
      String
      → String
      → W
      → AuthAttemptRegistry
      → (W × AuthAttemptRegistry) × (String ⊎ LogoutResult)
  unfolding revoke_all clean_up
  sign_out minted correlation_id w r =
      let (w₁, session) = o.load w in
      let (w₂, answer) = revoke_all session w₁ in
      elim answer [
        | inl exc ↦ ((w₂, r), inl exc)
        | inr revoked ↦
            let (after, result) = clean_up (or_str correlation_id minted) revoked w₂ r in
            (after, inr result)
      ]
