-- ===== src/Runs.antt =====
-- run_lifecycle/wait.py and run_lifecycle/models.py: the status of a run, and waiting for it to end.
-- `str.lower`, the query of a status, the progress callback, sleeping and the clock are parameters; times
-- are in milliseconds. The statuses that the wait was told are kept, the last one first.
pub mod Waiting
pub mod Arrival
pub mod Tail
pub mod Repair
pub mod Status
pub mod Record
pub mod Resume
mod Tests
mod RecordTests
use keyhole_sdk.Base.{
  ℕ, zero, suc, ◌+◌, ◌-◌, String, Bool, true, false, not, Option, none, some, List, [], ◌∷◌,
  is_empty, or_str, or_default, if◌then◌else◌,
}
use keyhole_sdk.Base.Dict.{lookup}
use keyhole_sdk.Base.Json.{Json}
use keyhole_sdk.Base.Text.{◌<>◌, strip}

pub data RunStatus : Type 0 where
  accepted running deferred success failed rejected denied cancelled unknown : RunStatus

abbrev pub status_value : RunStatus → String
status_value accepted = "accepted"
status_value running = "running"
status_value deferred = "deferred"
status_value success = "success"
status_value failed = "failed"
status_value rejected = "rejected"
status_value denied = "denied"
status_value cancelled = "cancelled"
status_value unknown = "unknown"

abbrev pub is_terminal : RunStatus → Bool
is_terminal success = true
is_terminal failed = true
is_terminal rejected = true
is_terminal denied = true
is_terminal cancelled = true
is_terminal _ = false

abbrev pub is_active : RunStatus → Bool
is_active accepted = true
is_active running = true
is_active deferred = true
is_active _ = false

abbrev pub status_map : List (String × RunStatus)
status_map =
    ("accepted", accepted)
    ∷ ("pending", accepted)
    ∷ ("running", running)
    ∷ ("in_progress", running)
    ∷ ("deferred", deferred)
    ∷ ("success", success)
    ∷ ("succeeded", success)
    ∷ ("completed", success)
    ∷ ("ok", success)
    ∷ ("failed", failed)
    ∷ ("error", failed)
    ∷ ("rejected", rejected)
    ∷ ("denied", denied)
    ∷ ("cancelled", cancelled)
    ∷ ("canceled", cancelled)
    ∷ []

unfoldable pub classify_status : (String → String) → String → RunStatus
classify_status lower raw = or_default (lookup (strip (lower raw)) status_map) unknown

-- The fields that may hold any JSON value do: the code passes them on unseen.
pub record RunStatusResult (D : Type 0) : Type 0 where
  pub ok : Bool
  pub run_id : String
  pub request_id : String
  pub correlation_id : String
  pub status : RunStatus
  pub run_type : String
  pub repo_name : Json
  pub shadow : Json
  pub ctxpack_digest : Json
  pub last_updated : Json
  pub summary : Json
  pub terminal_summary : Json
  pub resolved : Bool
  pub server_backed : Bool
  pub http_status_code : ℕ
  pub response_data : D
  pub error_class : String
  pub reason : String
  pub repair_guidance : List String

pub record RunWaitResult (D : Type 0) : Type 0 where
  pub ok : Bool
  pub run_id : String
  pub terminal_status : RunStatus
  pub polls : ℕ
  pub elapsed : ℕ
  pub final_data : Option D
  pub interrupted : Bool
  pub error_class : String
  pub reason : String
  pub repair_guidance : List String

pub record Outside (W D : Type 0) : Type 0 where
  pub fetch_run_status : String → W → W × RunStatusResult D
  -- Whether the callback asks to stop, by its answer or by a KeyboardInterrupt.
  pub on_poll : Option (RunStatusResult D → ℕ → W → W × Bool)
  pub sleep : ℕ → W → W
  pub time : W → ℕ
  pub show : ℕ → String

pub record Run (W D : Type 0) : Type 0 where
  pub world : W
  pub seen : List (RunStatusResult D)
  pub result : RunWaitResult D

module _ {W D : Type 0} (o : Outside W D) (run_id : String) (poll_interval start : ℕ) where
  abbrev pub ask_stop : RunStatusResult D → ℕ → W → W × Bool
  ask_stop x polls w = elim (o.on_poll) [ none ↦ (w, false) | some f ↦ f x polls w ]

  abbrev guidance : List String → List String
  guidance given =
      if is_empty given
      then ("Retry: keyhole runs status " <> run_id)
        ∷ "Observation failure does not mean execution failed."
        ∷ []
      else given

  -- The status query failed: that is no verdict on the run.
  unfoldable pub observation_failed : RunStatusResult D → ℕ → W → RunWaitResult D
  observation_failed x polls w = record {
    ok = false;
    run_id = run_id;
    terminal_status = unknown;
    polls = polls;
    elapsed = o.time w - start;
    final_data = none;
    interrupted = false;
    error_class = or_str (x.error_class) "observation_failed";
    reason = "Status retrieval failed: " <> x.reason;
    repair_guidance = guidance (x.repair_guidance);
  }

  unfoldable pub observed : RunStatusResult D → Bool → ℕ → W → RunWaitResult D
  observed x interrupted polls w = record {
    ok = true;
    run_id = run_id;
    terminal_status = x.status;
    polls = polls;
    elapsed = o.time w - start;
    final_data = some (x.response_data);
    interrupted = interrupted;
    error_class = "";
    reason = "";
    repair_guidance = [];
  }

  unfoldable pub timed_out : ℕ → W → RunWaitResult D
  timed_out polls w = record {
    ok = false;
    run_id = run_id;
    terminal_status = unknown;
    polls = polls;
    elapsed = o.time w - start;
    final_data = none;
    interrupted = false;
    error_class = "wait_timeout";
    reason = "Run did not reach terminal state after " <> (o.show polls <> " polls.");
    repair_guidance =
        ("Try again: keyhole runs wait " <> run_id)
        ∷ ("Check status: keyhole runs status " <> run_id)
        ∷ "The run may still be in progress."
        ∷ [];
  }

  abbrev pub over : W → List (RunStatusResult D) → RunWaitResult D → Run W D
  over w seen r = record { world = w; seen = seen; result = r }

  -- `left` polls are allowed after `polls`.
  unfoldable pub wait_from : ℕ → ℕ → List (RunStatusResult D) → W → Run W D
  unfolding observation_failed observed timed_out
  wait_from zero polls seen w = over w seen (timed_out polls w)
  wait_from (suc left) polls seen w =
      let w₁ = (o.fetch_run_status run_id w).0 in
      let x = (o.fetch_run_status run_id w).1 in
      let w₂ = (ask_stop x (suc polls) w₁).0 in
      let rest = wait_from left (suc polls) (x ∷ seen) (o.sleep poll_interval w₂) in
      if not (x.ok)
      then over w₁ (x ∷ seen) (observation_failed x (suc polls) w₁)
      else if (ask_stop x (suc polls) w₁).1
      then over w₂ (x ∷ seen) (observed x true (suc polls) w₂)
      else if is_terminal (x.status)
      then over w₂ (x ∷ seen) (observed x false (suc polls) w₂)
      else rest

unfoldable pub wait_for_terminal : {W D : Type 0} → Outside W D → String → ℕ → ℕ → W → Run W D
unfolding wait_from
wait_for_terminal o run_id poll_interval max_polls w =
    wait_from o run_id poll_interval (o.time w) max_polls 0 [] w
