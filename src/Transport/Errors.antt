-- ===== src/Transport/Errors.antt =====
-- transport/errors.py and exceptions.py: the errors of a call, with the fields that callers read.
-- Messages and repair texts are left out.
use keyhole_sdk.Base.{ℕ, String, Option}
use keyhole_sdk.Base.Int.{ℤ}
use keyhole_sdk.Base.Json.{Json}

-- The `last_error` that the loop keeps.
pub data LastError : Type 0 where
  no_error : LastError
  connection_error : String → LastError
  runtime_returned : ℕ → LastError

pub data TransportError : Type 0 where
  missing_idempotency_key : String → TransportError
  -- request id, key, server detail
  idempotency_conflict : String → Option String → String → TransportError
  -- request id, key, attempts, last error
  retry_exhausted : String → Option String → ℕ → LastError → TransportError
  -- request id, key
  transport_failed : String → Option String → TransportError
  -- request id, key, Retry-After
  rate_limited : String → Option String → Option ℤ → TransportError
  runtime_unavailable : ℕ → TransportError
  -- message, status, detail
  public_endpoint : Json → ℕ → Json → TransportError
  schema_invalid : TransportError
  -- Python's AttributeError, for a body with no method `get`
  attribute_error : TransportError
