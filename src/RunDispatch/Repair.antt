-- ===== src/RunDispatch/Repair.antt =====
-- run_dispatch/repair.py: the guidance for an error class.
use keyhole_sdk.Base.{String, false, Option, none, some, List, [], ◌∷◌, ◌≡◌, refl, is_empty}
use keyhole_sdk.Base.Dict.{lookup}
use keyhole_sdk.Base.Text.{◌<>◌}

abbrev pub repair_map : List (String × List String)
repair_map =
    ("AuthenticationError", "Run: keyhole login" ∷ "Re-authenticate and try again." ∷ [])
    ∷ (
      "TransportUnknownError",
      "Check network connectivity to the MCP boundary."
          ∷ "Retry is safe — the operation has idempotency protection." ∷ [],
    )
    ∷ (
      "RetryExhaustedError",
      "The boundary is unavailable after all retry attempts."
          ∷ "Wait and retry later. The operation preserved its idempotency key." ∷ [],
    )
    ∷ (
      "RuntimeUnavailableError",
      "The runtime returned an error. It may be temporarily unavailable." ∷ "Try again later." ∷ [],
    )
    ∷ (
      "IdempotencyConflictError",
      "A different payload was sent with the same idempotency key."
          ∷ "If this is a new operation, use a fresh idempotency key." ∷ [],
    )
    ∷ (
      "MissingIdempotencyKeyError",
      "This is an SDK-internal error. The write operation requires an idempotency key."
          ∷ "Update the SDK to the latest version." ∷ [],
    )
    ∷ (
      "RateLimitedError",
      "You are being rate-limited by the boundary."
          ∷ "Wait for the Retry-After period and try again." ∷ [],
    )
    ∷ (
      "PublicEndpointError",
      "The boundary rejected the request." ∷ "Check the error detail for the specific reason."
          ∷ "Run: keyhole validate — to check local declaration files." ∷ [],
    )
    ∷ (
      "ScaffoldMissing",
      "Run: keyhole init vertical" ∷ "Ensure you are in a governed repo directory." ∷ [],
    )
    ∷ (
      "InvalidRunType",
      "Choose a valid run-type from capabilities." ∷ "Run: keyhole run --run-type <valid-type>"
          ∷ "Do not guess run-type names." ∷ [],
    )
    ∷ (
      "PreflightFailure",
      "Preflight checks failed before dispatch."
          ∷ "Review the error reason and follow the repair guidance above." ∷ [],
    )
    ∷ []

-- An empty list counts as none.
abbrev pub guidance_or_default : String → Option (List String) → List String
guidance_or_default error_class (some (g ∷ gs)) = g ∷ gs
guidance_or_default error_class _ =
    ("Unexpected error: " <> error_class)
    ∷ "Try: keyhole run --shadow — for a low-risk first pass."
    ∷ "Try: keyhole validate — to check local declaration files."
    ∷ []

unfoldable pub map_repair_guidance : String → List String
unfolding lookup
map_repair_guidance error_class = guidance_or_default error_class (lookup error_class repair_map)

-- There is always a next step.
pub map_repair_guidance-not_empty :
    (error_class : String) → is_empty (map_repair_guidance error_class) ≡ false
unfolding map_repair_guidance
map_repair_guidance-not_empty error_class = there (lookup error_class repair_map)
  where
    there : (o : Option (List String)) → is_empty (guidance_or_default error_class o) ≡ false
    there none = refl
    there (some []) = refl
    there (some (g ∷ gs)) = refl
