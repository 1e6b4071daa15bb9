-- ===== src/Runs/Tests.antt =====
-- Waits for concrete runs.
use keyhole_sdk.Base.{ℕ, zero, suc, ◌+◌, ◌≡◌, refl, true, none, []}
use keyhole_sdk.Base.{false, ◌∷◌, ◌++◌, ◌-◌, map, if◌then◌else◌, arith}
use keyhole_sdk.Runs.Arrival.{wait_for_terminal-arrives}
use keyhole_sdk.Runs.Tail
use keyhole_sdk.Runs.Tail.{tail_run, tail_from, tail_ended}
use keyhole_sdk.Runs.Tail.Changes.{statuses, changes, tail_run-changes}
use keyhole_sdk.Base.Json.{null, bool, str}
use keyhole_sdk.Runs.{
  RunStatus, is_terminal, accepted, running, failed, status_value, RunStatusResult, Outside,
  wait_for_terminal, wait_from, observed,
}
use keyhole_sdk.Runs.Waiting.{IsExplained, wait_for_terminal-IsExplained}

abbrev answer : RunStatus → RunStatusResult ℕ
answer s = record {
  ok = true;
  run_id = "r";
  request_id = "";
  correlation_id = "";
  status = s;
  run_type = "";
  repo_name = null;
  shadow = bool false;
  ctxpack_digest = null;
  last_updated = null;
  summary = str "";
  terminal_summary = null;
  resolved = true;
  server_backed = true;
  http_status_code = 200;
  response_data = 7;
  error_class = "";
  reason = "";
  repair_guidance = [];
}

abbrev status_at : ℕ → RunStatus
status_at zero = accepted
status_at (suc zero) = running
status_at (suc (suc n)) = failed

-- The world counts the queries.
abbrev world : Outside ℕ ℕ
world = record {
  fetch_run_status = λ id n. (n + 1, answer (status_at n));
  on_poll = none;
  sleep = λ d n. n;
  time = λ n. n;
  show = λ n. "n";
}

failed-reported :
    ((wait_for_terminal world "r" 3000 5 0).result.terminal_status ≡ failed)
    × ((wait_for_terminal world "r" 3000 5 0).result.polls ≡ 3)
unfolding wait_for_terminal wait_from observed
failed-reported = (refl, refl)

wait_for_terminal-IsExplained_example :
    IsExplained world "r" 3000 5 (wait_for_terminal world "r" 3000 5 0)
wait_for_terminal-IsExplained_example = wait_for_terminal-IsExplained world "r" 3000 5 0

wait_for_terminal-arrives_example :
    let r = (wait_for_terminal world "r" 3000 5 0).result in
    (r.ok ≡ true) × (r.interrupted ≡ false) × (is_terminal (r.terminal_status) ≡ true)
wait_for_terminal-arrives_example =
    wait_for_terminal-arrives world "r" 3000 5 0 2 refl (λ v. refl) (omega arith) refl

-- A run that is asked for four times.
abbrev followed : Tail.Outside ℕ ℕ
followed = record {
  fetch_run_status = λ id n. (n + 1, answer (status_at (n - 1)));
  on_entry = none;
  sleep = λ n. n;
  now = λ n. "now";
}

two-changes :
    statuses ((tail_run followed "r" 10 0).result.entries) ≡ "accepted" ∷ "running" ∷ "failed" ∷ []
unfolding tail_run tail_from tail_ended
two-changes = refl

tail_run-changes_example :
    statuses ((tail_run followed "r" 10 0).result.entries)
    ≡ changes "" (map status_value ((tail_run followed "r" 10 0).seen))
      ++ (if (tail_run followed "r" 10 0).result.ok then [] else "error" ∷ [])
tail_run-changes_example = tail_run-changes followed "r" 10 0
