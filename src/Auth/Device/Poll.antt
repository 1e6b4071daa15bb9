-- ===== src/Auth/Device/Poll.antt =====
-- sdk_client_25/device_flow.py: `poll_for_token`. The world `W` is passed on by the callbacks, the
-- session and `sleep`; `time` is the injected monotonic clock. Times are in milliseconds, intervals
-- in seconds. A round of the `while True` takes one unit of fuel. The outcomes that the observer is
-- told are kept, the last one first.
use keyhole_sdk.Base.{
  ℕ, zero, suc, ◌+◌, ◌-◌, ◌*◌, min, String, Bool, true, false, Option, none, some, List, [], ◌∷◌,
  ◌⊎◌, ◌≡◌, refl, inl, inr, leb, ltb, or_str, if◌then◌else◌,
}
use keyhole_sdk.Base.Json.{Json}
use keyhole_sdk.Auth.Device.{
  DevicePollStatus, pending, slow_down, approved, expired, denied, cancelled, superseded,
  network_error, DeviceAuthorizationResponse, Reply, DevicePollOutcome, poll_once,
}

pub record Outside (W T : Type 0) : Type 0 where
  pub time : W → ℕ
  pub sleep : ℕ → W → W
  pub post : String → W → W × Reply
  -- Whether the token is cancelled, with its reason.
  pub cancel_token : Option (W → Option String)
  pub is_superseded : Option (W → W × Bool)
  pub on_status : Option (DevicePollOutcome T → W → W)
  pub show : ℕ → String
  pub model_validate : Json → String ⊎ T

-- The token, or the exception with its message.
pub data Ending (T : Type 0) : Type 0 where
  granted : T → Ending T
  was_cancelled was_expired was_denied network_failed crashed : String → Ending T
  out_of_fuel : Ending T

-- What a round does next: end, or wait with a new interval and a new count of failures.
pub data Next (T : Type 0) : Type 0 where
  finish : Ending T → Next T
  wait : ℕ → ℕ → Next T

unfoldable pub slower : ℕ → ℕ
slower interval = min (interval + 5) 60

pub record Run (W T : Type 0) : Type 0 where
  pub world : W
  pub seen : List (DevicePollOutcome T)
  pub ending : Ending T

pub data Step (W T : Type 0) : Type 0 where
  stopped : Run W T → Step W T
  waiting : ℕ → ℕ → List (DevicePollOutcome T) → W → Step W T

pub Step-cases :
    {W T : Type 0} (s : Step W T)
    → ((r : Run W T) × (s ≡ stopped r))
      ⊎ ((i : ℕ) × (f : ℕ) × (xs : List (DevicePollOutcome T)) × (w : W) × (s ≡ waiting i f xs w))
Step-cases (stopped r) = inl (r, refl)
Step-cases (waiting i f xs w) = inr (i, f, xs, w, refl)

pub Next-cases :
    {T : Type 0} (n : Next T)
    → ((e : Ending T) × (n ≡ finish e)) ⊎ ((i : ℕ) × (f : ℕ) × (n ≡ wait i f))
Next-cases (finish e) = inl (e, refl)
Next-cases (wait i f) = inr (i, f, refl)

module _ {W T : Type 0} (o : Outside W T) where
  abbrev pub cancelled_by : W → Option String
  cancelled_by w = elim (o.cancel_token) [ none ↦ none | some f ↦ f w ]

  abbrev pub ask_superseded : W → W × Bool
  ask_superseded w = elim (o.is_superseded) [ none ↦ (w, false) | some f ↦ f w ]

  abbrev pub tell : DevicePollOutcome T → W → W
  tell x w = elim (o.on_status) [ none ↦ w | some f ↦ f x w ]

  -- `assert outcome.token is not None`.
  abbrev pub grant : Option T → Ending T
  grant none = crashed "AssertionError"
  grant (some token) = granted token

  unfoldable pub next : DevicePollOutcome T → DevicePollStatus → ℕ → ℕ → Next T
  unfolding slower
  next x approved interval failures = finish (grant (x.token))
  next x denied interval failures = finish (was_denied (or_str (x.detail) "access_denied"))
  next x expired interval failures = finish (was_expired (or_str (x.detail) "expired_token"))
  next x slow_down interval failures = wait (slower interval) 0
  next x pending interval failures = wait interval 0
  next x network_error interval failures =
      if leb 3 (failures + 1)
      then finish (network_failed (or_str (x.detail) "network error during polling"))
      else wait interval (failures + 1)
  next x cancelled interval failures = wait interval failures
  next x superseded interval failures = wait interval failures

  abbrev pub asks_again : DevicePollStatus → Bool
  asks_again approved = true
  asks_again _ = false

  -- The second question of supersession, asked of an approval alone.
  abbrev pub recheck : DevicePollStatus → W → W × Bool
  recheck status w = if asks_again status then ask_superseded w else (w, false)

  unfoldable pub sleep_until : ℕ → ℕ → W → W
  sleep_until deadline interval w =
      let sleep_for = min (interval * 1000) (deadline - o.time w) in
      if ltb 0 sleep_for then o.sleep sleep_for w else w

  abbrev pub ended : W → List (DevicePollOutcome T) → Ending T → Run W T
  ended w seen e = record { world = w; seen = seen; ending = e }

  -- The round from the observer on.
  unfoldable pub after_poll :
      ℕ → ℕ → ℕ → List (DevicePollOutcome T) → DevicePollOutcome T → W → Step W T
  unfolding sleep_until next
  after_poll deadline interval failures seen x w =
      let (w₁, too_late) = recheck (x.status) (tell x w) in
      if too_late
      then stopped (ended w₁ (x ∷ seen) (was_cancelled "superseded"))
      else elim (next x (x.status) interval failures) [
        | finish e ↦ stopped (ended w₁ (x ∷ seen) e)
        | wait interval' failures' ↦
            if leb deadline (o.time w₁)
            then stopped (ended w₁ (x ∷ seen) (was_expired "device code expired"))
            else waiting interval' failures' (x ∷ seen) (sleep_until deadline interval' w₁)
      ]

  unfoldable pub round : String → ℕ → ℕ → ℕ → List (DevicePollOutcome T) → W → Step W T
  unfolding after_poll
  round code deadline interval failures seen w = elim (cancelled_by w) [
    | some reason ↦ stopped (ended w seen (was_cancelled (or_str reason "cancelled")))
    | none ↦
        let (w₁, late) = ask_superseded w in
        if late
        then stopped (ended w₁ seen (was_cancelled "superseded"))
        else let (w₂, reply) = o.post code w₁ in
          elim (poll_once (o.show) (o.model_validate) reply) [
            | inl exc ↦ stopped (ended w₂ seen (crashed exc))
            | inr x ↦ after_poll deadline interval failures seen x w₂
          ]
  ]

  unfoldable pub poll_from : String → ℕ → ℕ → ℕ → ℕ → List (DevicePollOutcome T) → W → Run W T
  unfolding round
  poll_from code deadline zero interval failures seen w = ended w seen out_of_fuel
  poll_from code deadline (suc fuel) interval failures seen w =
      elim (round code deadline interval failures seen w) [
        | stopped r ↦ r
        | waiting interval' failures' seen' w' ↦
            poll_from code deadline fuel interval' failures' seen' w'
      ]

  unfoldable pub poll_for_token : ℕ → DeviceAuthorizationResponse → W → Run W T
  poll_for_token fuel device w =
      poll_from (device.device_code) (o.time w + device.expires_in * 1000) fuel (device.interval) 0
        [] w
