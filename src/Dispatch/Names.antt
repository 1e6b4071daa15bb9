-- ===== src/Dispatch/Names.antt =====
-- dispatch/validator.py: the canonical run types and the known mistakes.
use keyhole_sdk.Base.{String, List, [], ◌∷◌}

-- A set, as a list of its members.
abbrev pub canonical_run_types : List String
canonical_run_types =
    "auth.login_complete" ∷ "auth.login_request" ∷ "auth.register" ∷ "auth.remove" ∷ "auth.status"
    ∷ "auth.verify" ∷ "bindings.cohort.get" ∷ "bindings.cohort.upsert"
    ∷ "connection.identity.inspect" ∷ "connection.invalidate" ∷ "connection.lineage.inspect"
    ∷ "connection.list.inspect" ∷ "connection.rebind" ∷ "connection.status.inspect"
    ∷ "context.compile" ∷ "context.constraints.build" ∷ "convergence.candidate"
    ∷ "convergence.closure" ∷ "convergence.constraints.check" ∷ "convergence.execute"
    ∷ "convergence.frontier.next" ∷ "convergence.gap.explain" ∷ "convergence.gap.resolve"
    ∷ "convergence.gap.validate" ∷ "convergence.loop" ∷ "convergence.operator_view"
    ∷ "convergence.status" ∷ "convergence.status.v0_1" ∷ "convergence.verdict" ∷ "digest.register"
    ∷ "events.replay" ∷ "eventvault.subject_stats.v1" ∷ "eventvault.verdicts.list"
    ∷ "flightcheck.v3" ∷ "gaps.claim" ∷ "gaps.evidence.submit" ∷ "gaps.get" ∷ "gaps.list"
    ∷ "gaps.next_open_canonical" ∷ "gaps.resolve" ∷ "gaps.status" ∷ "gaps.submit"
    ∷ "identity.binding.provision" ∷ "intent.compile" ∷ "intent.submit" ∷ "lineage.get.v0_1"
    ∷ "ops.pattern.acknowledge" ∷ "ops.pattern.get" ∷ "ops.pattern.list"
    ∷ "promotion.candidate.from_verdict.v0_1" ∷ "promotion.submit" ∷ "proof.bundle.emit"
    ∷ "proofbundle.build" ∷ "proofs.e2e.harness" ∷ "request.inspect" ∷ "run.budget" ∷ "run.explain"
    ∷ "run.status" ∷ "run.tail" ∷ "support.bundle" ∷ "readiness.explain" ∷ "tool.git.commit_push_pr"
    ∷ "tool.patch.apply" ∷ "workspace.close" ∷ "workspace.provision" ∷ []

abbrev pub known_mistakes : List (String × List String)
known_mistakes =
    ("gaps.states", "gaps.status" ∷ [])
    ∷ ("gaps.next", "gaps.next_open_canonical" ∷ [])
    ∷ ("gap.status", "gaps.status" ∷ [])
    ∷ ("gap.list", "gaps.list" ∷ [])
    ∷ ("gap.states", "gaps.status" ∷ [])
    ∷ ("context.get", "context.compile" ∷ [])
    ∷ ("context.fetch", "context.compile" ∷ [])
    ∷ ("context.retrieve", "context.compile" ∷ [])
    ∷ ("convergence.statuses", "convergence.status.v0_1" ∷ [])
    ∷ ("lineage.get", "lineage.get.v0_1" ∷ [])
    ∷ []
