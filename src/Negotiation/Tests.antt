-- ===== src/Negotiation/Tests.antt =====
-- Negotiations with concrete servers.
use keyhole_sdk.Base.{◌≡◌, String, Bool, true, List, [], ◌∷◌}
use keyhole_sdk.Base.Dict.{lookup}
use keyhole_sdk.Negotiation.Surfaces.{CapabilitiesResult, features_of, negotiate, compatible}
use keyhole_sdk.Negotiation.Posture.{posture, negotiate-status}

abbrev server : List (String × Bool) → CapabilitiesResult
server flags = record {
  flags = flags;
  implemented_surfaces = "context.compile" ∷ [];
  all_run_types = [];
  identity_endpoint = "/whoami";
  run_dispatch_endpoint = "";
  operations_implemented = 3;
  contract_version = "1";
  digest = "d";
}

abbrev full : CapabilitiesResult
full = server (
    ("run_async_accept", true)
    ∷ ("explainability", true)
    ∷ ("support_bundle", true)
    ∷ ("run_tail", true)
    ∷ ("budget_visibility", true)
    ∷ [])

negotiate-status_example :
    (negotiate "now" (server [])).compatibility.status ≡ posture (features_of (server []))
negotiate-status_example = negotiate-status "now" (server [])

full-compatible : (negotiate "now" full).compatibility.status ≡ compatible
unfolding features_of lookup
full-compatible = negotiate-status "now" full
