-- ===== src/Capability/Repair.antt =====
-- capability/repair.py: the guidance for an error class.
use keyhole_sdk.Base.{String, false, Option, none, some, List, [], ◌∷◌, ◌≡◌, refl, is_empty}
use keyhole_sdk.Base.Dict.{lookup}
use keyhole_sdk.Base.Text.{◌<>◌}

abbrev pub repair_map : List (String × List String)
repair_map =
    (
      "AuthenticationError",
      "Run: keyhole login" ∷ "Then retry the search or resolution command." ∷ [],
    )
    ∷ (
      "NotAuthenticated",
      "Run: keyhole login" ∷ "Then retry the search or resolution command." ∷ [],
    )
    ∷ (
      "TransportUnknownError",
      "Check network connectivity to the MCP boundary."
          ∷ "Retry is safe — the operation may have idempotency protection." ∷ [],
    )
    ∷ (
      "RetryExhaustedError",
      "The boundary is unavailable after all retry attempts." ∷ "Wait and retry later." ∷ [],
    )
    ∷ (
      "RuntimeUnavailableError",
      "The capability registry is temporarily unavailable." ∷ "Try again later." ∷ [],
    )
    ∷ (
      "ConnectionError",
      "Cannot reach the MCP boundary." ∷ "Check network, firewall, and MCP URL configuration."
          ∷ "Retry is safe." ∷ [],
    )
    ∷ (
      "RateLimitedError",
      "You are being rate-limited by the boundary."
          ∷ "Wait for the Retry-After period and try again." ∷ [],
    )
    ∷ (
      "IdempotencyConflictError",
      "A different payload was sent with the same idempotency key."
          ∷ "If this is a new resolution, use a fresh attempt." ∷ [],
    )
    ∷ (
      "AmbiguousResolution",
      "Multiple providers satisfy the capability — no lawful tie-break exists."
          ∷ "Specify --provider <name> to pin a provider explicitly."
          ∷ "Inspect candidates: keyhole search <capability>" ∷ [],
    )
    ∷ (
      "IncompatibleProviderSet",
      "Capability exists but no provider satisfies the requested constraints."
          ∷ "Relax version or provider constraints."
          ∷ "Inspect available providers: keyhole search <capability>" ∷ [],
    )
    ∷ (
      "CapabilityNotFound",
      "The requested capability was not found in the registry."
          ∷ "Check spelling of the capability name." ∷ "Try: keyhole search <broader-namespace>"
          ∷ [],
    )
    ∷ (
      "InvalidLocalDependencyState",
      "The local repo dependency model is malformed."
          ∷ "Inspect dependencies.yaml for syntax errors." ∷ "Run: keyhole validate — to diagnose."
          ∷ [],
    )
    ∷ (
      "UnsupportedWriteTarget",
      "This repo is foreign — in-repo write is not lawful by default."
          ∷ "Use --advisory mode for foreign repos."
          ∷ "Complete alignment before writing dependency state."
          ∷ "Run: keyhole repo register — and alignment steps first." ∷ [],
    )
    ∷ (
      "ServerRejection",
      "The boundary rejected the request." ∷ "Check the error reason for details."
          ∷ "Inspect ingestion compatibility posture before materializing." ∷ [],
    )
    ∷ (
      "RegistryUnreachable",
      "The capability registry is unreachable." ∷ "Check network connectivity to the MCP boundary."
          ∷ "Run: keyhole doctor — to diagnose your environment." ∷ [],
    )
    ∷ []

-- An empty list counts as none.
abbrev pub guidance_or_default : String → Option (List String) → List String
guidance_or_default error_class (some (g ∷ gs)) = g ∷ gs
guidance_or_default error_class _ =
    ("Unexpected error: " <> error_class)
    ∷ "Try: keyhole search <capability> — to inspect candidates."
    ∷ "Try: keyhole doctor — to diagnose your environment."
    ∷ []

unfoldable pub map_capability_repair : String → List String
unfolding lookup
map_capability_repair error_class = guidance_or_default error_class (lookup error_class repair_map)

-- There is always a next step.
pub map_capability_repair-not_empty :
    (error_class : String) → is_empty (map_capability_repair error_class) ≡ false
unfolding map_capability_repair
map_capability_repair-not_empty error_class = there (lookup error_class repair_map)
  where
    there : (o : Option (List String)) → is_empty (guidance_or_default error_class o) ≡ false
    there none = refl
    there (some []) = refl
    there (some (g ∷ gs)) = refl
