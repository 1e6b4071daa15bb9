-- ===== src/Dispatch/Schemas/Gaps.antt =====
-- dispatch/schema.py: the known schemas, from `context.compile` to `gaps.evidence.submit`.
use keyhole_sdk.Base.{String, List, [], ◌∷◌}
use keyhole_sdk.Base.Json.{str, obj, end, field}
use keyhole_sdk.Dispatch.Models.{SchemaHint, static_hint}

abbrev pub gap_schemas : List (String × SchemaHint)
gap_schemas =
    static_hint "context.compile" [] [] end
      "Primary context bootstrap surface. No required parameters."
    ∷ static_hint "gaps.list" [] [] end "Browse current gaps. No required parameters."
    ∷ static_hint "gaps.status" [] [] end "Current gap status posture."
    ∷ static_hint "gaps.next_open_canonical" [] [] end "Next open canonical gap."
    ∷ static_hint "lineage.get.v0_1" ("target" ∷ []) []
        (field "target" (str "<target-identifier>") end)
        "Causal lineage for a specific target. Requires 'target' parameter."
    ∷ static_hint "convergence.status.v0_1" [] [] end
        "Current convergence posture. No required parameters."
    ∷ static_hint "convergence.constraints.check" [] ("target" ∷ "scope" ∷ []) end
        "Check convergence constraints. Optional: 'target' and 'scope' parameters."
    ∷ static_hint "promotion.submit" ("repo_name" ∷ []) ("ctxpack_digest" ∷ [])
        (field "repo_name" (str "<repo>") end)
        "Submit a promotion request. Re-discover capabilities for current shape."
    ∷ static_hint "gaps.resolve" ("gap_id" ∷ []) [] (field "gap_id" (str "<gap_id>") end)
        "Resolve (close) an open gap."
    ∷ static_hint "gaps.claim" ("gap_id" ∷ "repo_name" ∷ []) ("ctxpack_digest" ∷ [])
        (field "gap_id" (str "<gap_id>") (field "repo_name" (str "<repo>") end))
        "Claim an open gap for a repo."
    ∷ static_hint "gaps.submit" ("capability" ∷ "repo_name" ∷ [])
        ("ctxpack_digest" ∷ "description" ∷ [])
        (field "capability" (str "<cap>") (field "repo_name" (str "<repo>") end))
        "Submit a new gap for a capability."
    ∷ static_hint "gaps.get" ("gap_id" ∷ []) [] (field "gap_id" (str "<gap_id>") end)
        "Retrieve a specific gap by ID."
    ∷ static_hint "gaps.evidence.submit" ("gap_id" ∷ "evidence" ∷ []) []
        (field "gap_id" (str "<gap_id>") (field "evidence" (obj end) end))
        "Submit evidence for an open gap."
    ∷ []
