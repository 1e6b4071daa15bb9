-- ===== src/Budget/Repair.antt =====
-- budget/repair.py: what a reader is told to do about a limit.
use keyhole_sdk.Base.{String, List, [], ◌∷◌, or_default}
use keyhole_sdk.Base.Dict.{lookup}

abbrev pub repair_map : List (String × List String)
repair_map =
    (
      "budget_exhausted",
      "Inspect the exhausted budget class and narrow the run scope."
          ∷ "Reduce output volume or target set before retrying."
          ∷ "Use --shadow for exploratory work to avoid consuming bounded budgets."
          ∷ "Contact your tenant admin if the budget appears misconfigured."
          ∷ "Run: keyhole runs status <run-id> — to retrieve the full terminal state." ∷ [],
    )
    ∷ (
      "deferred",
      "The request was deferred due to governed pressure handling — not rejected."
          ∷ "The run may still execute when platform pressure reduces."
          ∷ "Run: keyhole runs status <run-id> — to check if the run has started."
          ∷ "Run: keyhole runs wait <run-id> — to await terminal state."
          ∷ "Run: keyhole runs resume <identifier> — to reconnect to a deferred run." ∷ [],
    )
    ∷ (
      "rate_limited",
      "The request was rate limited — this is not a semantic contract failure."
          ∷ "Wait for the indicated retry interval, then retry."
          ∷ "Run: keyhole runs status <run-id> — to check if an earlier run already started."
          ∷ "Reduce submission rate if the rate limit persists."
          ∷ "Check your tenant rate posture if limits seem too low." ∷ [],
    )
    ∷ (
      "concurrency_limited",
      "The request was gated by a concurrency slot limit."
          ∷ "Wait for current runs to complete before submitting new work."
          ∷ "Run: keyhole runs list — to see which runs are currently active."
          ∷ "Run: keyhole runs wait <run-id> — for each active run before retrying."
          ∷ "Reduce the number of simultaneous governed runs in your tenant." ∷ [],
    )
    ∷ (
      "unknown_pressure",
      "The server returned an unrecognized limit or pressure category."
          ∷ "Run: keyhole runs status <run-id> — to retrieve full run metadata."
          ∷ "Inspect the proof artifact for raw server response details."
          ∷ "Retry after a short delay — this may be a transient platform condition."
          ∷ "If the issue persists, contact support with the run_id and request_id." ∷ [],
    )
    ∷ (
      "success_with_budget_visibility",
      "The run completed successfully."
          ∷ "Review the budget posture summary for any near-limit warnings."
          ∷ "Consider reducing run scope if any budgets are near exhaustion." ∷ [],
    )
    ∷ (
      "no_pressure_data",
      "No budget or limit information was returned by the server."
          ∷ "Run: keyhole runs status <run-id> — to request fresh status." ∷ [],
    )
    ∷ (
      "TransportUnknownError",
      "A transport-level error occurred when fetching budget posture."
          ∷ "Check network connectivity and retry."
          ∷ "Verify the MCP boundary is reachable: keyhole doctor" ∷ [],
    )
    ∷ (
      "AuthenticationError",
      "Not authenticated. Run: keyhole login" ∷ "Then retry: keyhole runs budget <run-id>" ∷ [],
    )
    ∷ (
      "NotAuthenticated",
      "Not authenticated. Run: keyhole login" ∷ "Then retry: keyhole runs budget <run-id>" ∷ [],
    )
    ∷ (
      "MissingRunId",
      "A run ID is required. Use: keyhole runs budget <run-id>"
          ∷ "Run: keyhole runs list — to find recent run IDs." ∷ [],
    )
    ∷ []

abbrev pub default_repair : List String
default_repair =
    "Inspect the proof artifact for raw server details."
    ∷ "Run: keyhole runs status <run-id> — for current run state."
    ∷ "Retry after a short delay if this is a transient condition." ∷ []

unfoldable pub map_budget_repair : String → List String
unfolding lookup
map_budget_repair outcome_class = or_default (lookup outcome_class repair_map) default_repair
