-- ===== src/Auth/Device/Fuel.antt =====
-- sdk_client_25/device_flow.py: the fuel of `poll_for_token`. The clock is monotonic, and a
-- sleep lasts at least as long as it is asked to.
use keyhole_sdk.Base.{
  ℕ, zero, suc, ◌+◌, ◌*◌, min, ◌-◌, ◌≤◌, ◌↔◌, ◌<◌, ◌≡◌, refl, String, Bool, true, false, Option,
  none, some, List, [], inl, inr, arith, leb, Bool-cases, Sum-cases, Option-cases,
}
use keyhole_sdk.Auth.Device.{
  DevicePollStatus, pending, slow_down, approved, expired, denied, cancelled, superseded,
  network_error, DeviceAuthorizationResponse, DevicePollOutcome, poll_once,
}
use keyhole_sdk.Auth.Device.Poll.{
  Outside, Ending, out_of_fuel, Next, finish, wait, Step, stopped, waiting, cancelled_by,
  ask_superseded, tell, grant, next, recheck, sleep_until, after_poll, round, poll_from,
  poll_for_token, slower, Step-cases, Next-cases, slower, asks_again,
}

abbrev pub has_ended : {T : Type 0} → Ending T → Bool
has_ended out_of_fuel = false
has_ended _ = true

-- `time.monotonic` never goes back, whatever is done, and `time.sleep` suspends for its argument.
pub record IsMonotonic {W T : Type 0} (o : Outside W T) : Type 0 where
  pub post_time : (code : String) (w : W) → o.time w ≤ o.time (o.post code w).0
  pub ask_time : (w : W) → o.time w ≤ o.time (ask_superseded o w).0
  pub tell_time : (x : DevicePollOutcome T) (w : W) → o.time w ≤ o.time (tell o x w)
  pub sleep_time : (d : ℕ) (w : W) → o.time w + d ≤ o.time (o.sleep d w)

-- The bounds of `slow_down`: the interval never exceeds 60 s, and it grows by up to 5 s exactly when
-- it is not above 60 s; an interval above 60 s is made shorter.
slower-grows :
    (interval : ℕ)
    → (slower interval ≤ 60)
      × (slower interval ≤ interval + 5)
      × ((interval ≤ slower interval) ↔ (interval ≤ 60))
unfolding slower
slower-grows interval = (omega arith, omega arith, (λ h. omega arith, λ h. omega arith))

-- A count of the posts to the token endpoint, which nothing else of the poll posts to.
pub record IsPostCount {W T : Type 0} (o : Outside W T) (posts : W → ℕ) : Type 0 where
  pub post_counts : (code : String) (w : W) → posts (o.post code w).0 ≡ posts w + 1
  pub ask_keeps : (w : W) → posts (ask_superseded o w).0 ≡ posts w
  pub tell_keeps : (x : DevicePollOutcome T) (w : W) → posts (tell o x w) ≡ posts w
  pub sleep_keeps : (d : ℕ) (w : W) → posts (o.sleep d w) ≡ posts w

module _ {W T : Type 0} (o : Outside W T) where
  Steady : Next T → Type 0
  Steady (finish e) = has_ended e ≡ true
  Steady (wait i f) = 1 ≤ i

  grant-ends : (t : Option T) → has_ended (grant o t) ≡ true
  grant-ends none = refl
  grant-ends (some t) = refl

  next-Steady :
      (x : DevicePollOutcome T) (s : DevicePollStatus) (i f : ℕ) → 1 ≤ i → Steady (next o x s i f)
  unfolding next Steady slower
  next-Steady x pending i f h = h
  next-Steady x slow_down i f h = omega arith
  next-Steady x approved i f h = grant-ends (x.token)
  next-Steady x expired i f h = refl
  next-Steady x denied i f h = refl
  next-Steady x cancelled i f h = h
  next-Steady x superseded i f h = h
  next-Steady x network_error i f h = elim (Bool-cases (leb 3 (f + 1))) [
    | inl b ↦ rw b refl
    | inr b ↦ rw b h
  ]

  module _ (posts : W → ℕ) (c : IsPostCount o posts) where
    recheck-posts : (s : DevicePollStatus) (w : W) → posts (recheck o s w).0 ≡ posts w
    recheck-posts s w = elim (Bool-cases (asks_again o s)) [
      | inl b ↦ rw b (c.ask_keeps w)
      | inr b ↦ rw b refl
    ]

    sleep_until-posts : (deadline i : ℕ) (w : W) → posts (sleep_until o deadline i w) ≡ posts w
    unfolding sleep_until
    sleep_until-posts deadline i w =
        let d = min (i * 1000) (deadline - o.time w) in ground (arith, c.sleep_keeps d w)

  module _ (m : IsMonotonic o) (posts : W → ℕ) (c : IsPostCount o posts) where
    recheck-time : (s : DevicePollStatus) (w : W) → o.time w ≤ o.time (recheck o s w).0
    recheck-time s w = elim (Bool-cases (asks_again o s)) [
      | inl b ↦ rw b (m.ask_time w)
      | inr b ↦ rw b (omega arith)
    ]

    sleep_until-time :
        (deadline i k : ℕ) (w : W)
        → 1 ≤ i
        → deadline ≤ o.time w + 1000 * suc k
        → deadline ≤ o.time (sleep_until o deadline i w) + 1000 * k
    unfolding sleep_until
    sleep_until-time deadline i k w h l =
        let d = min (i * 1000) (deadline - o.time w) in ground (arith, m.sleep_time d w)

    -- What a round from `w` promises: an end, or a wait that leaves less time to the deadline, after one
    -- post at most.
    Advances : ℕ → W → List (DevicePollOutcome T) → Step W T → Type 0
    Advances deadline w seen (stopped r) =
        (has_ended (r.ending) ≡ true) × (posts (r.world) ≤ posts w + 1)
    Advances deadline w seen (waiting i f seen' w') =
        (1 ≤ i)
        × (posts w' ≤ posts w + 1)
        × ((k : ℕ) → deadline ≤ o.time w + 1000 * suc k → deadline ≤ o.time w' + 1000 * k)
        × (o.time w < deadline)

    after_poll-Advances :
        (deadline i f : ℕ) (seen : List (DevicePollOutcome T)) (x : DevicePollOutcome T) (w₀ w : W)
        → 1 ≤ i
        → o.time w₀ ≤ o.time w
        → posts w ≤ posts w₀ + 1
        → Advances deadline w₀ seen (after_poll o deadline i f seen x w)
    unfolding Advances after_poll Steady
    after_poll-Advances deadline i f seen x w₀ w h l once =
        let w₁ = (recheck o (x.status) (tell o x w)).0 in
        let past : o.time w₀ ≤ o.time w₁ =
          omega (arith, m.tell_time x w, recheck-time (x.status) (tell o x w)) in
        let told : posts w₁ ≤ posts w₀ + 1 =
          omega (arith, c.tell_keeps x w, recheck-posts posts c (x.status) (tell o x w)) in
        let steady = next-Steady x (x.status) i f h in
        elim (Bool-cases (recheck o (x.status) (tell o x w)).1) [
          | inl b ↦ rw (b, after_poll) (refl, told)
          | inr b ↦
              rw (b, after_poll)
                (elim (Next-cases (next o x (x.status) i f)) [
                  | inl (e, p) ↦ rw (p, after_poll) (coe 0 1 (j. Steady (p j)) steady, told)
                  | inr (i', f', p) ↦
                      let h' : 1 ≤ i' = coe 0 1 (j. Steady (p j)) steady in
                      rw (p, after_poll)
                        (elim (Bool-cases (leb deadline (o.time w₁))) [
                          | inl late ↦ rw late (refl, told)
                          | inr late ↦ rw late (
                            h',
                            omega (arith, sleep_until-posts posts c deadline i' w₁),
                            λ k g. sleep_until-time deadline i' k w₁ h' (omega arith),
                            ground (arith, late, past),
                          )
                        ])
                ])
        ]

    round-Advances :
        (code : String) (deadline i f : ℕ) (seen : List (DevicePollOutcome T)) (w : W)
        → 1 ≤ i
        → Advances deadline w seen (round o code deadline i f seen w)
    unfolding round Advances
    round-Advances code deadline i f seen w h =
        let w₁ = (ask_superseded o w).0 in
        let reply = (o.post code w₁).1 in
        elim (Option-cases (cancelled_by o w)) [
          | inr (reason, a) ↦ rw (a, round) (refl, omega arith)
          | inl a ↦
              rw (a, round)
                (elim (Bool-cases (ask_superseded o w).1) [
                  | inl s ↦ rw (s, round) (refl, omega (arith, c.ask_keeps w))
                  | inr s ↦
                      rw (s, round)
                        (elim (Sum-cases (poll_once (o.show) (o.model_validate) reply)) [
                          | inl (exc, p) ↦
                              rw (p, round)
                                (refl, omega (arith, c.ask_keeps w, c.post_counts code w₁))
                          | inr (x, p) ↦
                              rw (p, round)
                                (after_poll-Advances deadline i f seen x w (o.post code w₁).0 h
                                  (omega (arith, m.ask_time w, m.post_time code w₁))
                                  (omega (arith, c.ask_keeps w, c.post_counts code w₁)))
                        ])
                ])
        ]

    poll_from-ends :
        (code : String) (deadline fuel i f k : ℕ) (seen : List (DevicePollOutcome T)) (w : W)
        → 1 ≤ i
        → k < fuel
        → deadline ≤ o.time w + 1000 * k
        → (has_ended ((poll_from o code deadline fuel i f seen w).ending) ≡ true)
          × (posts ((poll_from o code deadline fuel i f seen w).world) ≤ posts w + suc k)
    unfolding poll_from Advances
    poll_from-ends code deadline zero i f k seen w h l d = ground arith
    poll_from-ends code deadline (suc fuel) i f k seen w h l d =
        let a = round-Advances code deadline i f seen w h in
        elim (Step-cases (round o code deadline i f seen w)) [
          | inl (r, p) ↦
              let (e, n) = (coe 0 1 (j. Advances deadline w seen (p j)) a) in
              rw (p, poll_from) (e, omega arith)
          | inr (i', f', seen', w', p) ↦
              let (h', n, g, b) = (coe 0 1 (j. Advances deadline w seen (p j)) a) in
              (let (e, bound) =
                  poll_from-ends code deadline fuel i' f' (k - 1) seen' w' h' (ground arith)
                    (g (k - 1) (ground arith)) in
                rw (p, poll_from) (e, ground arith))
        ]

    -- With an interval of at least one second and more fuel than the seconds that the code lives, on a
    -- monotonic clock, `poll_for_token` ends, and posts to the token endpoint at most `expires_in + 1`
    -- times, as counted by a count of these posts alone.
    pub poll_for_token-ends :
        (fuel : ℕ) (device : DeviceAuthorizationResponse) (w : W)
        → 1 ≤ device.interval
        → device.expires_in < fuel
        → (has_ended ((poll_for_token o fuel device w).ending) ≡ true)
          × (posts ((poll_for_token o fuel device w).world) ≤ posts w + (device.expires_in + 1))
    unfolding poll_for_token
    poll_for_token-ends fuel device w h l =
        let (e, n) =
          poll_from-ends (device.device_code) (o.time w + device.expires_in * 1000) fuel
            (device.interval) 0 (device.expires_in) [] w h l (omega arith) in
        (e, omega arith)
