-- ===== src/Transport/Call/Loop.antt =====
-- Induction over the retry loop: what every attempt, sleep and final mark keeps, the call keeps.
-- `Ok` says what is known of the headers that an attempt finds.
use keyhole_sdk.Base.{ℕ, zero, suc, ◌+◌, ◌≤◌, min, String, Option, arith, inl, inr, []}
use keyhole_sdk.Base.Json.{Json}
use keyhole_sdk.Transport.Errors.{LastError}
use keyhole_sdk.Transport.Proof.{ClientObservation}
use keyhole_sdk.Transport.Registry.{RetryPolicy}
use keyhole_sdk.Transport.Client.{Headers, Response, Outside, GovernedTransport, Run, Verdict-cases}
use keyhole_sdk.Transport.Call.{
  sleep_for_backoff, mark_run, succeed, send_attempt, verdict_at, attempts_from,
}

module _ {κ} {S : Type 0} (t : GovernedTransport) (o : Outside S) (key : Option String)
    (policy : RetryPolicy) (limit : ℕ) (method path : String) (P : ℕ → Run S → Type κ)
    (Ok : ℕ → Headers → Type 0) (later : (n : ℕ) → Ok (n + 1) [])
    (sent : (n : ℕ) (caller : Headers) (s : Run S)
      → Ok n caller
      → P n s
      → P (n + 1) (send_attempt t o key policy limit method path n caller s))
    (slept : (n d : ℕ) (s : Run S) → P n s → P n (sleep_for_backoff d s))
    (marked : (n : ℕ) (x : ClientObservation) (s : Run S) → P n s → P n (mark_run x s))
    (succeeded : (n : ℕ) (j : Json) (r : Response) (s : Run S)
      → P n s
      → P n (succeed j r s).1) where
  pub loop_keeps :
      (left n : ℕ) (caller : Headers) (last : LastError) (s : Run S)
      → Ok n caller
      → P n s
      → (m : ℕ) × (m ≤ n + left)
        × (min (n + left) (n + 1) ≤ m)
        × P m (attempts_from t o key policy limit method path left n caller last s).1
  unfolding attempts_from
  loop_keeps zero n caller last s a h = (n, omega arith, omega arith, marked n _ s h)
  loop_keeps (suc left) n caller last s a h =
      let s' = send_attempt t o key policy limit method path n caller s in
      let h' = sent n caller s a h in
      elim (Verdict-cases (verdict_at t o key policy limit method path n caller last s)) [
        | inl (d, l, e) ↦
            let (m, below, above, k) =
              loop_keeps left (n + 1) [] l (sleep_for_backoff d s') (later n)
                (slept (n + 1) d s' h') in
            (m, omega arith, omega arith, rw (e, attempts_from) k)
        | inr (inl (x, y, e)) ↦
            (n + 1, omega arith, omega arith, rw (e, attempts_from) (marked (n + 1) y s' h'))
        | inr (inr (j, r, e)) ↦
            (n + 1, omega arith, omega arith, rw (e, attempts_from) (succeeded (n + 1) j r s' h'))
      ]
