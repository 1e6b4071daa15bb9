-- ===== src/Runs/Resume.antt =====
-- run_lifecycle/resume.py: connecting again to a run, by its record or by asking for its status.
-- The query of a status is a parameter; the files that hold the records are part of the state. What
-- the answer holds besides the status is a value of any type, for which `note` makes the value that
-- stands in for it when only the record is known. The time of a write is the query's.
pub mod Keeps
use keyhole_sdk.Base.{
  ℕ, String, Bool, true, false, not, ◌&&◌, ◌||◌, ◌⊎◌, inl, inr, Option, none, some, List, [], ◌∷◌,
  or_str, truthy, if◌then◌else◌,
}
use Prim.Native.Char.{Char}
use keyhole_sdk.Base.Json.{Json, str, or_json}
use keyhole_sdk.Base.Text.{◌<>◌, strip}
use keyhole_sdk.Runs.{RunStatus, unknown, status_value, classify_status, RunStatusResult}
use keyhole_sdk.Runs.Record.{RunRecord, Files, SaveError, key_of, save, load, update_status}
use keyhole_sdk.Runs.Repair.{map_run_lifecycle_repair}

pub record RunResumeResult (D : Type 0) : Type 0 where
  pub ok : Bool
  pub run_id : String
  pub status : RunStatus
  pub reconnected : Bool
  pub source : String
  pub error_class : String
  pub reason : String
  pub repair_guidance : List String
  pub response_data : Option D

pub record Outside (W D : Type 0) : Type 0 where
  pub fetch_run_status : String → Json → W → W × RunStatusResult D
  pub is_alnum : Char → Bool
  pub lower : String → String
  pub writes : Bool
  pub now : W → String
  -- The data that names the last known status.
  pub note : String → D

-- `inl` is what the call raises.
pub record Run (W D : Type 0) : Type 0 where
  pub world : W
  pub files : Files
  pub result : SaveError ⊎ RunResumeResult D

module _ {W D : Type 0} (o : Outside W D) where
  unfoldable pub missing_identifier : RunResumeResult D
  missing_identifier = record {
    ok = false;
    run_id = "";
    status = unknown;
    reconnected = false;
    source = "";
    error_class = "missing_identifier";
    reason = "No run ID or request ID provided.";
    repair_guidance =
        "Provide a run-id or request-id to resume." ∷ "List recent runs with: keyhole runs list"
        ∷ [];
    response_data = none;
  }

  unfoldable pub reconnected_to : String → RunStatusResult D → String → RunResumeResult D
  reconnected_to run_id x source = record {
    ok = true;
    run_id = or_str (x.run_id) run_id;
    status = x.status;
    reconnected = true;
    source = source;
    error_class = "";
    reason = "";
    repair_guidance = [];
    response_data = some (x.response_data);
  }

  unfoldable pub remembered : String → RunRecord → RunResumeResult D
  unfolding classify_status
  remembered run_id r = record {
    ok = true;
    run_id = run_id;
    status = classify_status (o.lower) (r.last_known_status);
    reconnected = true;
    source = "local_record";
    error_class = "";
    reason = "";
    repair_guidance =
        ("Check boundary status: keyhole runs status " <> run_id)
        ∷ "Observation failure does not mean execution failed."
        ∷ [];
    response_data = some (o.note (r.last_known_status));
  }

  unfoldable pub not_found : String → RunResumeResult D
  unfolding map_run_lifecycle_repair
  not_found identifier = record {
    ok = false;
    run_id = identifier;
    status = unknown;
    reconnected = false;
    source = "";
    error_class = "resume_ambiguous";
    reason = "Cannot locate run '" <> (identifier <> "' locally or on the boundary.");
    repair_guidance = map_run_lifecycle_repair "resume_ambiguous";
    response_data = none;
  }

  -- The record of a run that is found by asking for it.
  unfoldable pub record_of : String → Json → RunStatusResult D → RunRecord
  record_of identifier repo_name x = record {
    request_id = "";
    run_id = or_str (x.run_id) identifier;
    command = "keyhole run";
    mode = "regular";
    run_type = x.run_type;
    ctxpack_digest = x.ctxpack_digest;
    submitted_at = "";
    last_known_status = status_value (x.status);
    proof_path = "";
    repo_name = or_json (x.repo_name) repo_name;
    repo_path = "";
    correlation_id = "";
  }

  abbrev pub over : W → Files → SaveError ⊎ RunResumeResult D → Run W D
  over w fs r = record { world = w; files = fs; result = r }

  unfoldable pub resume_recorded : RunRecord → String → Json → Files → W → Run W D
  unfolding remembered reconnected_to update_status
  resume_recorded r identifier repo_name fs w =
      let run_id = or_str (r.run_id) identifier in
      let answer = o.fetch_run_status run_id (or_json (r.repo_name) repo_name) w in
      let x = answer.1 in
      if not (x.ok)
      then over (answer.0) fs (inr (remembered run_id r))
      else elim (update_status (o.is_alnum) (o.writes) (o.now (answer.0)) (key_of r)
          (status_value (x.status)) fs) [
            | inl e ↦ over (answer.0) fs (inl e)
            | inr gs ↦ over (answer.0) gs (inr (reconnected_to run_id x "local_record"))
          ]

  unfoldable pub resume_unrecorded : String → Json → Files → W → Run W D
  unfolding not_found reconnected_to record_of save
  resume_unrecorded identifier repo_name fs w =
      let answer = o.fetch_run_status identifier repo_name w in
      let x = answer.1 in
      if not (x.ok)
      then over (answer.0) fs (inr (not_found identifier))
      else elim (save (o.is_alnum) (o.writes) (o.now (answer.0)) (record_of identifier repo_name x)
          fs) [
            | inl e ↦ over (answer.0) fs (inr (reconnected_to identifier x "boundary_lookup"))
            | inr gs ↦ over (answer.0) gs (inr (reconnected_to identifier x "boundary_lookup"))
          ]

  unfoldable pub resume_run : String → Json → Files → W → Run W D
  unfolding resume_recorded resume_unrecorded missing_identifier load strip
  resume_run identifier repo_name fs w =
      if not (truthy (strip identifier))
      then over w fs (inr missing_identifier)
      else elim (load (o.is_alnum) (strip identifier) fs) [
        | some r ↦ resume_recorded r (strip identifier) repo_name fs w
        | none ↦ resume_unrecorded (strip identifier) repo_name fs w
      ]
