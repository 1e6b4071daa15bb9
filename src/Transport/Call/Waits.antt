-- ===== src/Transport/Call/Waits.antt =====
-- How long a call sleeps between its attempts.
use keyhole_sdk.Base.{
  ℕ, zero, suc, ◌+◌, ◌-◌, ◌*◌, ◌≤◌, ◌<◌, ◌≡◌, refl, String, false, not, ◌&&◌, Option, none, List,
  [], ◌∷◌, ◌++◌, arith, Bool-cases, inl, inr,
}
use keyhole_sdk.Base.Int.{ℤ}
use keyhole_sdk.Transport.Errors.{LastError, no_error}
use keyhole_sdk.Transport.Proof.{new_proof}
use keyhole_sdk.Transport.Registry.{RetryPolicy, Registry, get_operation}
use keyhole_sdk.Transport.Retry.{RetryConfig, parse_retry_after}
use keyhole_sdk.Transport.Client.{
  Headers, Reply, failed, answered, Outside, GovernedTransport, again, Verdict-cases, Run,
  key_truthy, max_attempts, judge_response, judge,
}
use keyhole_sdk.Transport.Call.{
  sleep_for_backoff, mark_run, succeed, send_attempt, verdict_at, attempts_from, policy_of,
  class_of, requires_key, is_write_operation, mint_key, start_run, execute,
}
use keyhole_sdk.Transport.Call.Ends.{judge-again, final_response-ne-again}
use keyhole_sdk.Transport.Retry.Delays.{compute_backoff_delay-le-max}

-- The time slept, in milliseconds.
abbrev pub sum : List ℕ → ℕ
sum [] = 0
sum (x ∷ xs) = x + sum xs

sum-snoc : (xs : List ℕ) (y : ℕ) → sum (xs ++ y ∷ []) ≡ sum xs + y
sum-snoc [] y = omega arith
sum-snoc (x ∷ xs) y = omega (arith, sum-snoc xs y)

sum-sleep_for_backoff :
    {S : Type 0} (d : ℕ) (s : Run S) → sum (sleep_for_backoff d s).sleeps ≡ sum s.sleeps + d
unfolding sleep_for_backoff
sum-sleep_for_backoff d s = ground (arith, sum-snoc s.sleeps d)

module _ (config : RetryConfig) (u : ℕ → ℕ → ℕ) (p : String → Option ℤ) (key : Option String)
    (policy : RetryPolicy) (limit : ℕ) (draws : (n b : ℕ) → u n b ≤ b)
    (ignored : config.respect_retry_after ≡ false) where
  judge-delay :
      (n : ℕ) (id : String) (q : Reply) (last : LastError) (d : ℕ) (l : LastError)
      → judge config u p key policy limit n id q last ≡ again d l
      → d ≤ config.backoff_max_ms
  unfolding judge judge_response
  judge-delay n id (failed e) last d l h =
      ground (arith, compute_backoff_delay-le-max (u n) n config none (draws n) ignored)
  judge-delay n id (answered r) last d l h = ground (
    arith,
    final_response-ne-again r d l,
    compute_backoff_delay-le-max (u n) n config (parse_retry_after p r.header) (draws n) ignored,
  )

module _ {S : Type 0} (t : GovernedTransport) (o : Outside S) (key : Option String)
    (policy : RetryPolicy) (limit : ℕ) (method path : String)
    (draws : (n b : ℕ) → o.uniform n b ≤ b)
    (ignored : t.retry_config.respect_retry_after ≡ false) where
  verdict_at-delay :
      (n : ℕ) (caller : Headers) (last : LastError) (s : Run S) (d : ℕ) (l : LastError)
      → verdict_at t o key policy limit method path n caller last s ≡ again d l
      → (n < limit) × (d ≤ t.retry_config.backoff_max_ms)
  unfolding verdict_at
  verdict_at-delay n caller last s d l v = (
    (judge-again t.retry_config o.uniform o.parse_float key policy limit n (o.uuid s.uuids) _ last d
        l v).0,
    judge-delay t.retry_config o.uniform o.parse_float key policy limit draws ignored n
        (o.uuid s.uuids) _ last d l v,
  )

  sum-send_attempt :
      (n : ℕ) (caller : Headers) (s : Run S)
      → sum (send_attempt t o key policy limit method path n caller s).sleeps ≡ sum s.sleeps
  unfolding send_attempt
  sum-send_attempt n caller s = refl

  attempts_from-sum :
      (left n : ℕ) (caller : Headers) (last : LastError) (s : Run S)
      → n + left ≡ limit + 1
      → sum (attempts_from t o key policy limit method path left n caller last s).1.sleeps
        ≤ sum s.sleeps + (left - 1) * t.retry_config.backoff_max_ms
  unfolding attempts_from mark_run succeed
  attempts_from-sum zero n caller last s e = omega arith
  attempts_from-sum (suc left) n caller last s e =
      let s' = send_attempt t o key policy limit method path n caller s in
      elim (Verdict-cases (verdict_at t o key policy limit method path n caller last s)) [
        | inl (d, l, v) ↦
            let (room, short) = verdict_at-delay n caller last s d l v in
            rw (v, attempts_from)
              (grind (
                arith,
                attempts_from-sum left (n + 1) [] l (sleep_for_backoff d s') (omega arith),
                sum-sleep_for_backoff d s',
                sum-send_attempt n caller s,
              ))
        | inr (inl (x, y, v)) ↦ rw (v, attempts_from) (omega (arith, sum-send_attempt n caller s))
        | inr (inr (j, r, v)) ↦ rw (v, attempts_from) (omega (arith, sum-send_attempt n caller s))
      ]

-- Where `Retry-After` is not respected, a call sleeps at most the configured maximum for each
-- attempt that its policy and configuration allow beyond the first, whatever the jitter draws
-- between 0 and its bound.
execute-slept :
    {S : Type 0} (t : GovernedTransport) (o : Outside S) (registry : Registry) (name : String)
    (given : Option String) (method path : String) (caller : Headers) (world : S)
    → ((n b : ℕ) → o.uniform n b ≤ b)
    → t.retry_config.respect_retry_after ≡ false
    → sum (execute t o registry name given method path caller world).1.sleeps
      ≤ (max_attempts t.retry_config (policy_of (get_operation name registry)) - 1)
        * t.retry_config.backoff_max_ms
unfolding execute
execute-slept t o registry name given method path caller world draws ignored =
    let d = get_operation name registry in
    let key = (mint_key o.uuid (requires_key d) given).0 in
    let limit = max_attempts t.retry_config (policy_of d) in
    elim (Bool-cases (is_write_operation d && not (key_truthy key))) [
      | inl e ↦ rw e (omega arith)
      | inr e ↦ rw e (
          omega (
            arith,
            attempts_from-sum t o key (policy_of d) limit method path draws ignored limit 1 caller
                no_error
                (start_run world (mint_key o.uuid (requires_key d) given).1
                  (new_proof key (class_of d) name))
                (omega arith),
          ))
    ]
