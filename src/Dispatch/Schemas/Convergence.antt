-- ===== src/Dispatch/Schemas/Convergence.antt =====
-- dispatch/schema.py: the known schemas, from `convergence.candidate` to `ops.pattern.list`.
use keyhole_sdk.Base.{String, List, [], ◌∷◌}
use keyhole_sdk.Base.Json.{str, end, field}
use keyhole_sdk.Dispatch.Models.{SchemaHint, static_hint}

abbrev pub convergence_schemas : List (String × SchemaHint)
convergence_schemas =
    static_hint "convergence.candidate" [] [] end
      "Current convergence candidate. Re-discover for exact shape."
    ∷ static_hint "convergence.closure" [] [] end "Convergence closure posture."
    ∷ static_hint "convergence.frontier.next" [] [] end "Next convergence frontier item."
    ∷ static_hint "convergence.verdict" [] [] end "Current convergence verdict."
    ∷ static_hint "convergence.gap.validate" ("gap_id" ∷ []) []
        (field "gap_id" (str "<gap_id>") end) "Validate a gap against convergence constraints."
    ∷ static_hint "convergence.gap.resolve" ("gap_id" ∷ []) [] (field "gap_id" (str "<gap_id>") end)
        "Resolve a gap through the convergence path."
    ∷ static_hint "convergence.gap.explain" ("gap_id" ∷ []) [] (field "gap_id" (str "<gap_id>") end)
        "Explain the current state of a gap."
    ∷ static_hint "convergence.loop" [] [] end "Convergence loop execution."
    ∷ static_hint "convergence.execute" [] [] end "Execute a convergence cycle."
    ∷ static_hint "convergence.operator_view" [] [] end
        "Operator view of current convergence state."
    ∷ static_hint "convergence.status" [] [] end
        "Convergence status. Prefer convergence.status.v0_1 for versioned contract."
    ∷ static_hint "promotion.candidate.from_verdict.v0_1" [] [] end
        "Build a promotion candidate from a convergence verdict."
    ∷ static_hint "ops.pattern.acknowledge" ("pattern_id" ∷ []) []
        (field "pattern_id" (str "<id>") end) "Acknowledge an ops pattern."
    ∷ static_hint "ops.pattern.get" ("pattern_id" ∷ []) [] (field "pattern_id" (str "<id>") end)
        "Get a specific ops pattern."
    ∷ static_hint "ops.pattern.list" [] [] end "List all ops patterns."
    ∷ []
