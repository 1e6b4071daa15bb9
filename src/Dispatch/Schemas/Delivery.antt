-- ===== src/Dispatch/Schemas/Delivery.antt =====
-- dispatch/schema.py: the known schemas, from `proofs.e2e.harness` to `eventvault.verdicts.list`.
use keyhole_sdk.Base.{String, List, [], ◌∷◌}
use keyhole_sdk.Base.Json.{str, end, field}
use keyhole_sdk.Dispatch.Models.{SchemaHint, static_hint}

abbrev pub delivery_schemas : List (String × SchemaHint)
delivery_schemas =
    static_hint "proofs.e2e.harness" [] [] end "Run the end-to-end proof harness."
    ∷ static_hint "intent.compile" [] [] end "Compile current intent context."
    ∷ static_hint "intent.submit" [] ("intent_ref" ∷ []) end
        "Submit a governed intent for dispatch."
    ∷ static_hint "workspace.provision" ("repo_name" ∷ "gap_id" ∷ "claim_token" ∷ []) []
        (field "repo_name" (str "<repo>")
          (field "gap_id" (str "<gap_id>") (field "claim_token" (str "<token>") end)))
        "Provision a governed workspace for a claimed gap."
    ∷ static_hint "workspace.close" ("workspace_id" ∷ []) []
        (field "workspace_id" (str "<ws_id>") end) "Close a provisioned workspace."
    ∷ static_hint "readiness.explain" [] [] end
        "Explain current platform readiness state and invariant results."
    ∷ static_hint "proof.bundle.emit" ("workspace_id" ∷ []) []
        (field "workspace_id" (str "<ws_id>") end) "Emit a proof bundle for a workspace."
    ∷ static_hint "proofbundle.build" [] [] end "Build a proof bundle."
    ∷ static_hint "run.status" [] ("run_id" ∷ "request_id" ∷ "correlation_id" ∷ [])
        (field "run_id" (str "<run-id>") end)
        "Server-backed run status for a durable run, request, or correlation identifier."
    ∷ static_hint "run.explain" [] ("run_id" ∷ "request_id" ∷ "correlation_id" ∷ [])
        (field "run_id" (str "<run-id>") end)
        "Server-backed run explanation for a durable run, request, or correlation identifier."
    ∷ static_hint "request.inspect" [] ("request_id" ∷ "run_id" ∷ "correlation_id" ∷ [])
        (field "request_id" (str "<request-id>") end)
        "Server-backed request inspection linked to run, context, proof, and receipt evidence."
    ∷ static_hint "support.bundle" [] ("run_id" ∷ "request_id" ∷ "correlation_id" ∷ [])
        (field "run_id" (str "<run-id>") end)
        "Server-backed support bundle or manifest for a durable run/request chain."
    ∷ static_hint "run.tail" []
        ("run_id" ∷ "request_id" ∷ "correlation_id" ∷ "cursor" ∷ "limit" ∷ [])
        (field "run_id" (str "<run-id>") end)
        "Server-backed ordered run observations for a durable run/request chain."
    ∷ static_hint "run.budget" [] ("run_id" ∷ "request_id" ∷ "correlation_id" ∷ [])
        (field "run_id" (str "<run-id>") end)
        "Run-level budget and limit posture for a durable run/request chain."
    ∷ static_hint "bindings.cohort.get" [] ("cohort_id" ∷ []) end "Get cohort binding information."
    ∷ static_hint "bindings.cohort.upsert" ("cohort_id" ∷ []) []
        (field "cohort_id" (str "<cohort_id>") end) "Upsert a cohort binding."
    ∷ static_hint "digest.register" ("digest" ∷ []) [] (field "digest" (str "<sha256-digest>") end)
        "Register a canonical digest."
    ∷ static_hint "identity.binding.provision" [] [] end "Provision an identity binding."
    ∷ static_hint "eventvault.subject_stats.v1" [] ("subject" ∷ []) end
        "Get Event Vault subject statistics."
    ∷ static_hint "eventvault.verdicts.list" [] ("cursor" ∷ "limit" ∷ []) end
        "List verdicts from the Event Vault."
    ∷ []
