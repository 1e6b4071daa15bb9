-- ===== src/Transport/Call/Allowed.antt =====
-- transport/client.py: what the configuration and the operation allow a call, read off them case by
-- case.
use keyhole_sdk.Base.{
  ℕ, ◌+◌, ◌≡◌, refl, String, Bool, true, false, not, ◌&&◌, Option, none, some, arith, truthy,
  if◌then◌else◌, Bool-cases, inl, inr,
}
use keyhole_sdk.Base.Int.{ℤ, pos, negsuc, max_zero}
use keyhole_sdk.Transport.Registry.{
  OperationClass, read_only, write_idempotent_required, naturally_convergent_exempt,
  internal_only_not_exposed, RetryPolicy, safe_read, safe_write_idempotent, no_retry,
  OperationDescriptor,
}
use keyhole_sdk.Transport.Retry.{RetryConfig}
use keyhole_sdk.Transport.Client.{key_truthy, max_attempts}
use keyhole_sdk.Transport.Call.{policy_of, requires_key, is_write_operation, mint_key}

abbrev pub may_retry : RetryPolicy → Bool
may_retry safe_read = true
may_retry safe_write_idempotent = true
may_retry no_retry = false

-- How many requests may follow the first one: none where retries are off, the operation is not known,
-- or its policy is not to retry.
abbrev pub retries_allowed : RetryConfig → Option OperationDescriptor → ℕ
retries_allowed config none = 0
retries_allowed config (some d) =
    if config.enabled && may_retry d.retry_policy then max_zero config.max_retries else 0

pub max_attempts_lem :
    (config : RetryConfig) (d : Option OperationDescriptor)
    → max_attempts config (policy_of d) ≡ 1 + retries_allowed config d
unfolding max_attempts
max_attempts_lem config none = ground arith
max_attempts_lem config (some d) = elim (Bool-cases config.enabled) [
  | inr e ↦ simp e refl
  | inl e ↦ simp e (by_policy d.retry_policy config.max_retries)
]
  where
    by_policy :
        (p : RetryPolicy) (z : ℤ)
        → max_attempts (record config { enabled = true; max_retries = z }) p
          ≡ 1 + (if may_retry p then max_zero z else 0)
    by_policy safe_read (pos n) = ground arith
    by_policy safe_read (negsuc n) = refl
    by_policy safe_write_idempotent (pos n) = ground arith
    by_policy safe_write_idempotent (negsuc n) = refl
    by_policy no_retry z = refl

abbrev pub writes : OperationClass → Bool
writes write_idempotent_required = true
writes read_only = false
writes naturally_convergent_exempt = false
writes internal_only_not_exposed = false

-- No key is given, or an empty one.
abbrev pub is_blank : Option String → Bool
is_blank none = true
is_blank (some k) = not (truthy k)

-- The operation writes, the caller gives no key, and no key is minted: the operation does not ask for
-- one, or the fresh UUID is empty.
abbrev pub is_unkeyed : String → Option OperationDescriptor → Option String → Bool
is_unkeyed fresh none given = false
is_unkeyed fresh (some d) given =
    writes d.operation_class && is_blank given && not (d.idempotency_required && truthy fresh)

pub is_unkeyed_lem :
    (uuid : ℕ → String) (d : Option OperationDescriptor) (given : Option String)
    → (is_write_operation d && not (key_truthy (mint_key uuid (requires_key d) given).0))
      ≡ is_unkeyed (uuid 0) d given
unfolding mint_key
is_unkeyed_lem uuid none given = refl
is_unkeyed_lem uuid (some d) given = by_class d.operation_class given
  where
    by_given :
        (given : Option String)
        → not (key_truthy (mint_key uuid d.idempotency_required given).0)
          ≡ (is_blank given && not (d.idempotency_required && truthy (uuid 0)))
    by_given none = ground arith
    by_given (some k) = ground arith

    by_class :
        (c : OperationClass) (given : Option String)
        → (is_write_operation (some (record d { operation_class = c }))
            && not (key_truthy (mint_key uuid d.idempotency_required given).0))
          ≡ (writes c && is_blank given && not (d.idempotency_required && truthy (uuid 0)))
    by_class write_idempotent_required given = by_given given
    by_class read_only given = refl
    by_class naturally_convergent_exempt given = refl
    by_class internal_only_not_exposed given = refl
