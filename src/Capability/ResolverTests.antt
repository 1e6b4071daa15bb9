-- ===== src/Capability/ResolverTests.antt =====
-- Resolutions of a capability.
use keyhole_sdk.Base.{ℕ, ◌+◌, ◌≡◌, refl, String, some, inl, inr}
use keyhole_sdk.Base.Json.{str, num, Fields, end, field, get_field}
use keyhole_sdk.Capability.Outcomes.{
  ResolutionRequest, attribute_error, resolution_payload, outcome_with, resolved_outcome,
  dependency_of,
}
use keyhole_sdk.Capability.Resolver.{
  Reply, returned, classify_resolution, outcome_by, submit_resolution,
}
use keyhole_sdk.Capability.Resolver.Closed.{PicksIf, picks, submit_resolution-PicksIf}

abbrev same : String → String
same s = s

abbrev request : ResolutionRequest
request = record {
  capability = "a.b.c.v1";
  provider = "";
  version = "";
  repo_identity = "repo";
  repo_posture = "native";
  mode = "advisory";
  identity_fingerprint = "f";
  correlation_id = "c1";
  timestamp = "now";
}

abbrev rejected : Fields
rejected = field "status" (str "rejected") end

abbrev send : String → String → Fields → ℕ → ℕ × Reply
send path name payload n = (n + 1, returned 200 rejected)

-- A rejection with a code below 400 is taken for a resolution by no provider.
rejection_picks :
    classify_resolution same request 200 rejected
    ≡ inr (record (outcome_with request 200 rejected "resolved") {
      resolved = some (record {
        capability = "a.b.c.v1";
        provider = "";
        version = "";
        digest = "";
        reason = "";
      });
    })
unfolding classify_resolution outcome_by resolved_outcome dependency_of get_field
rejection_picks = refl

number_escapes :
    classify_resolution same request 200 (field "status" (num 3) end) ≡ inl attribute_error
unfolding classify_resolution get_field
number_escapes = refl

submit_resolution-PicksIf_example :
    let r =
      send "/mcp/v1/capabilities/resolve" "capability.resolve" (resolution_payload request) 0 in
    PicksIf (picks same (r.1)) ((submit_resolution same send request 0).1)
submit_resolution-PicksIf_example = submit_resolution-PicksIf same send request 0
