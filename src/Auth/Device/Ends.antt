-- ===== src/Auth/Device/Ends.antt =====
-- sdk_client_25/device_flow.py: how a poll for a token can end, from the outcomes that it saw.
use keyhole_sdk.Base.{
  ℕ, zero, suc, ◌+◌, ◌*◌, ◌<◌, ◌≡◌, refl, ap, String, Bool, true, false, some, List, [], ◌∷◌, ◌⊎◌,
  inl, inr, arith, leb, if◌then◌else◌, Bool-cases, Sum-cases, Option-cases,
}
use keyhole_sdk.Auth.Device.{
  DevicePollStatus, pending, slow_down, approved, expired, denied, network_error,
  DeviceAuthorizationResponse, DevicePollOutcome, poll_once,
}
use keyhole_sdk.Auth.Device.Poll.{
  Outside, Ending, granted, was_cancelled, was_expired, was_denied, network_failed, crashed,
  out_of_fuel, Run, Step, stopped, waiting, cancelled_by, ask_superseded, tell, next, sleep_until,
  ended, after_poll, round, poll_from, poll_for_token, slower, Step-cases,
}
use keyhole_sdk.Auth.Device.Kinds.{
  Kind, approving, denying, expiring, keeping, failing, Answer, poll_once-Answer,
}

-- The failures in a row up to the last poll.
unfoldable pub trailing : {T : Type 0} → List (DevicePollOutcome T) → ℕ
trailing [] = 0
trailing (x ∷ xs) = let n = trailing xs in elim (x.status) [ network_error ↦ suc n | _ ↦ 0 ]

-- The answers after which a flow goes on.
abbrev keeps_on : DevicePollStatus → Bool
keeps_on pending = true
keeps_on slow_down = true
keeps_on network_error = true
keeps_on _ = false

-- No poll has decided the flow yet: each said to go on, and none was a third failure in a row.
unfoldable pub IsOpen : {T : Type 0} → List (DevicePollOutcome T) → Type 0
IsOpen [] = Unit
IsOpen (x ∷ xs) = (keeps_on (x.status) ≡ true) × (trailing (x ∷ xs) < 3) × IsOpen xs

-- The flow was open up to the last poll, which has the status.
unfoldable pub Closes : {T : Type 0} → DevicePollStatus → List (DevicePollOutcome T) → Type 0
unfolding IsOpen
Closes status [] = ⊥
Closes status (x ∷ xs) = (x.status ≡ status) × IsOpen xs

module _ {T : Type 0} (x : DevicePollOutcome T) (xs : List (DevicePollOutcome T)) where
  trailing-keeping : (x.status ≡ pending) ⊎ (x.status ≡ slow_down) → trailing (x ∷ xs) ≡ 0
  unfolding trailing
  trailing-keeping (inl e) = simp e
  trailing-keeping (inr e) = simp e

  trailing-failing : x.status ≡ network_error → trailing (x ∷ xs) ≡ suc (trailing xs)
  unfolding trailing
  trailing-failing e = simp e

  IsOpen-keeping : (x.status ≡ pending) ⊎ (x.status ≡ slow_down) → IsOpen xs → IsOpen (x ∷ xs)
  unfolding IsOpen
  IsOpen-keeping (inl e) k = (ap keeps_on e, omega (arith, trailing-keeping (inl e)), k)
  IsOpen-keeping (inr e) k = (ap keeps_on e, omega (arith, trailing-keeping (inr e)), k)

  IsOpen-failing : x.status ≡ network_error → trailing xs < 2 → IsOpen xs → IsOpen (x ∷ xs)
  unfolding IsOpen
  IsOpen-failing e l k = (ap keeps_on e, omega (arith, trailing-failing e), k)

trailing-bounded : {T : Type 0} (xs : List (DevicePollOutcome T)) → IsOpen xs → trailing xs < 3
unfolding IsOpen trailing
trailing-bounded [] k = omega arith
trailing-bounded (x ∷ xs) (a, b, k) = b

module _ {W T : Type 0} (o : Outside W T) where
  -- What an ending means, by the outcomes that were seen. A token was approved by the last poll, and
  -- the last thing done was to learn that the attempt is not superseded.
  unfoldable pub Justified : List (DevicePollOutcome T) → W → Ending T → Type 0
  unfolding Closes IsOpen trailing
  Justified [] w (granted t) = ⊥
  Justified (x ∷ xs) w (granted t) =
      (x.status ≡ approved)
      × (x.token ≡ some t)
      × IsOpen xs
      × ((w' : W) × (ask_superseded o w' ≡ (w, false)))
  Justified seen w (was_denied m) = Closes denied seen
  Justified seen w (was_expired m) = Closes expired seen ⊎ IsOpen seen
  Justified seen w (was_cancelled m) = IsOpen seen ⊎ Closes approved seen
  Justified seen w (network_failed m) = Closes network_error seen × (trailing seen ≡ 3)
  Justified seen w (crashed m) = IsOpen seen
  Justified seen w out_of_fuel = IsOpen seen

  unfoldable Sound : Step W T → Type 0
  unfolding Justified
  Sound (stopped r) = Justified (r.seen) (r.world) (r.ending)
  Sound (waiting interval failures seen w) = IsOpen seen × (trailing seen ≡ failures)

  after_wait-Sound :
      (deadline interval failures : ℕ) (seen : List (DevicePollOutcome T)) (w : W)
      → IsOpen seen
      → trailing seen ≡ failures
      → Sound (
          if leb deadline (o.time w)
          then stopped (ended o w seen (was_expired "device code expired"))
          else waiting interval failures seen (sleep_until o deadline interval w))
  unfolding Sound
  after_wait-Sound deadline interval failures seen w k e =
      elim (Bool-cases (leb deadline (o.time w))) [ inl b ↦ rw b (inr k) | inr b ↦ rw b (k, e) ]

  after_poll-Sound :
      (deadline interval failures : ℕ) (seen : List (DevicePollOutcome T)) (x : DevicePollOutcome T)
      (w : W)
      → IsOpen seen
      → trailing seen ≡ failures
      → Kind x
      → Sound (after_poll o deadline interval failures seen x w)
  unfolding after_poll next Sound
  after_poll-Sound deadline interval failures seen x w k e (approving t s u) =
      elim (Bool-cases (ask_superseded o (tell o x w)).1) [
        | inl b ↦ simp (s, b) (inr (refl, k))
        | inr b ↦
            simp (s, b, u)
              (refl, refl, k, (tell o x w, λ i. ((ask_superseded o (tell o x w)).0, b i)))
      ]
  after_poll-Sound deadline interval failures seen x w k e (denying s) = simp s (refl, k)
  after_poll-Sound deadline interval failures seen x w k e (expiring s) = simp s (inl (refl, k))
  after_poll-Sound deadline interval failures seen x w k e (keeping (inl s)) = simp s (
      after_wait-Sound deadline interval 0 (x ∷ seen) (tell o x w) (IsOpen-keeping x seen (inl s) k)
        (trailing-keeping x seen (inl s)))
  after_poll-Sound deadline interval failures seen x w k e (keeping (inr s)) = simp s (
      after_wait-Sound deadline (slower interval) 0 (x ∷ seen) (tell o x w)
        (IsOpen-keeping x seen (inr s) k) (trailing-keeping x seen (inr s)))
  after_poll-Sound deadline interval failures seen x w k e (failing s) =
      elim (Bool-cases (leb 3 (failures + 1))) [
        | inl b ↦ simp (s, b) ((refl, k), ground (arith, b, e, trailing-bounded seen k))
        | inr b ↦
            simp (s, b)
              (after_wait-Sound deadline interval (failures + 1) (x ∷ seen) (tell o x w)
                (IsOpen-failing x seen s (ground (arith, b, e)) k)
                (omega (arith, e, trailing-failing x seen s)))
      ]

  round-Sound :
      (code : String) (deadline interval failures : ℕ) (seen : List (DevicePollOutcome T)) (w : W)
      → IsOpen seen
      → trailing seen ≡ failures
      → Sound (round o code deadline interval failures seen w)
  unfolding round Sound
  round-Sound code deadline interval failures seen w k e =
      let w₁ = (ask_superseded o w).0 in
      let reply = (o.post code w₁).1 in
      elim (Option-cases (cancelled_by o w)) [
        | inr (reason, c) ↦ rw (c, round) (inl k)
        | inl c ↦
            rw (c, round)
              (elim (Bool-cases (ask_superseded o w).1) [
                | inl s ↦ rw (s, round) (inl k)
                | inr s ↦
                    rw (s, round)
                      (elim (Sum-cases (poll_once (o.show) (o.model_validate) reply)) [
                        | inl (exc, p) ↦ rw (p, round) k
                        | inr (x, p) ↦
                            rw (p, round)
                              (after_poll-Sound deadline interval failures seen x (o.post code w₁).0
                                k e
                                (coe 0 1 (i. Answer (p i))
                                  (poll_once-Answer o.show o.model_validate reply)))
                      ])
              ])
      ]

  unfoldable pub JustifiedRun : Run W T → Type 0
  unfolding Justified
  JustifiedRun r = Justified (r.seen) (r.world) (r.ending)

  poll_from-Justified :
      (code : String) (deadline fuel interval failures : ℕ) (seen : List (DevicePollOutcome T))
      (w : W)
      → IsOpen seen
      → trailing seen ≡ failures
      → JustifiedRun (poll_from o code deadline fuel interval failures seen w)
  unfolding poll_from JustifiedRun Sound
  poll_from-Justified code deadline zero interval failures seen w k e = k
  poll_from-Justified code deadline (suc fuel) interval failures seen w k e =
      elim (Step-cases (round o code deadline interval failures seen w)) [
        | inl (r, p) ↦
            rw (p, poll_from)
              ((coe 0 1 (i. Sound (p i)) (round-Sound code deadline interval failures seen w k e)))
        | inr (interval', failures', seen', w', p) ↦
            let (k', e') =
              (coe 0 1 (i. Sound (p i)) (round-Sound code deadline interval failures seen w k e)) in
            rw (p, poll_from)
              (poll_from-Justified code deadline fuel interval' failures' seen' w' k' e')
      ]

  -- However `poll_for_token` ends, the outcomes seen justify it: a token only after an approval that
  -- carries it and a last answer that the attempt is not superseded, a denial only after
  -- `access_denied`, a network error only after exactly three failures in a row; and no outcome
  -- before the last one was decisive or a third failure in a row.
  pub poll_for_token-justified :
      (fuel : ℕ) (device : DeviceAuthorizationResponse) (w : W)
      → JustifiedRun (poll_for_token o fuel device w)
  unfolding poll_for_token IsOpen trailing
  poll_for_token-justified fuel device w =
      poll_from-Justified (device.device_code) (o.time w + device.expires_in * 1000) fuel
        (device.interval) 0 [] w tt refl
