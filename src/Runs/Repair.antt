-- ===== src/Runs/Repair.antt =====
-- run_lifecycle/repair.py: what a reader is told to do about an error class.
use keyhole_sdk.Base.{String, List, [], ◌∷◌, or_default}
use keyhole_sdk.Base.Dict.{lookup}
use keyhole_sdk.Base.Text.{◌<>◌}

abbrev pub repair_map : List (String × List String)
repair_map =
    (
      "non_terminal",
      "The run is accepted but not yet complete." ∷ "Check status: keyhole runs status <run-id>"
          ∷ "Wait for result: keyhole runs wait <run-id>" ∷ [],
    )
    ∷ (
      "observation_failed",
      "Status retrieval failed — this does NOT mean execution failed."
          ∷ "Retry: keyhole runs status <run-id>" ∷ "Or wait: keyhole runs wait <run-id>" ∷ [],
    )
    ∷ (
      "status_retrieval_failed",
      "Status retrieval failed." ∷ "Check network connectivity to the MCP boundary."
          ∷ "Retry: keyhole runs status <run-id>"
          ∷ "Observation failure does not mean execution failed." ∷ [],
    )
    ∷ (
      "terminal_failure",
      "The run completed with a failure or denial."
          ∷ "Inspect local proof: proof_bundle/core/runs/<run-id>/"
          ∷ "Use richer explain/support surfaces when available." ∷ [],
    )
    ∷ (
      "resume_ambiguous",
      "Cannot determine which run to reconnect to confidently."
          ∷ "Provide the exact run-id or request-id."
          ∷ "List recent runs: keyhole runs list (when available)"
          ∷ "Check local proof: .keyhole/state/runs/" ∷ [],
    )
    ∷ (
      "missing_identifier",
      "No run ID or request ID provided." ∷ "Provide: keyhole runs resume <run-id>" ∷ [],
    )
    ∷ (
      "protocol_error",
      "The boundary returned an invalid accepted/deferred envelope."
          ∷ "Missing run_id in accepted response." ∷ "Retry the run or contact support." ∷ [],
    )
    ∷ (
      "missing_run_id",
      "The boundary accepted the run but did not return a run_id."
          ∷ "This is a protocol-level issue." ∷ "Check local proof for the correlation_id." ∷ [],
    )
    ∷ (
      "wait_timeout",
      "The run did not reach terminal state within the poll limit."
          ∷ "Try again: keyhole runs wait <run-id>" ∷ "Or check: keyhole runs status <run-id>"
          ∷ "The run may still be in progress." ∷ [],
    )
    ∷ (
      "wait_interrupted",
      "Wait was interrupted before terminal state." ∷ "Resume: keyhole runs wait <run-id>"
          ∷ "Or check: keyhole runs status <run-id>" ∷ [],
    )
    ∷ ("AuthenticationError", "Run: keyhole login" ∷ "Re-authenticate and try again." ∷ [])
    ∷ (
      "TransportUnknownError",
      "Check network connectivity to the MCP boundary." ∷ "Retry is safe for observation commands."
          ∷ [],
    )
    ∷ (
      "RetryExhaustedError",
      "The boundary is unavailable after all retry attempts." ∷ "Wait and retry later." ∷ [],
    )
    ∷ (
      "RuntimeUnavailableError",
      "The runtime returned an error. It may be temporarily unavailable." ∷ "Try again later." ∷ [],
    )
    ∷ (
      "malformed_run_id",
      "The run ID format is invalid." ∷ "Check the run ID and try again."
          ∷ "Run IDs are typically alphanumeric with dashes or underscores." ∷ [],
    )
    ∷ []

unfoldable pub map_run_lifecycle_repair : String → List String
map_run_lifecycle_repair error_class = or_default (lookup error_class repair_map) (
    ("Unexpected error: " <> error_class)
    ∷ "Check: keyhole runs status <run-id>"
    ∷ "Observation failure does not mean execution failed."
    ∷ [])
