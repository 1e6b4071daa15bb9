-- ===== src/Runs/RecordTests.antt =====
-- Records of concrete runs, and runs that are resumed.
use Prim.Native.Char.{Char, code}
use keyhole_sdk.Base.{
  ℕ, ◌+◌, ◌≡◌, refl, String, Bool, true, false, ◌||◌, ◌&&◌, ◌⊎◌, inr, some, [], ◌∷◌, leb, str_eq,
}
use keyhole_sdk.Base.Dict.{lookup, insert}
use keyhole_sdk.Base.Json.{Json, null, bool, str, obj, Fields, end, field}
use keyhole_sdk.Base.Text.{take_chars}
use keyhole_sdk.Runs.{running, RunStatusResult}
use keyhole_sdk.Runs.Record.{
  RunRecord, Files, to_dict, safe_chars, safe_filename, file_of, save, load, update_status,
  with_status,
}
use keyhole_sdk.Runs.Record.Keys.{IsKeyed, save-load, save-IsKeyed, update_status_lem}
use keyhole_sdk.Runs.Resume
use keyhole_sdk.Runs.Resume.{resume_run}
use keyhole_sdk.Runs.Resume.Keeps.{IsKept, resume_run-IsKept}
use keyhole_sdk.Runs.Status.{fetch_run_status, status_request}
use keyhole_sdk.Runs.Status.Verdict.{Verdict, IsAnswered, fetch_run_status-Verdict}

abbrev is_alnum : Char → Bool
is_alnum c =
    (leb 97 (code c) && leb (code c) 122)
    || (leb 65 (code c) && leb (code c) 90)
    || (leb 48 (code c) && leb (code c) 57)

abbrev kept : RunRecord
kept = record {
  request_id = "";
  run_id = "a_b";
  command = "keyhole run";
  mode = "regular";
  run_type = "repo.validate";
  ctxpack_digest = null;
  submitted_at = "";
  last_known_status = "accepted";
  proof_path = "";
  repo_name = str "repo";
  repo_path = "";
  correlation_id = "";
}

abbrev files : Files
files = ("a_b.json", some (obj (to_dict kept "now"))) ∷ []

saved : save is_alnum true "now" kept [] ≡ inr files
unfolding save file_of safe_filename safe_chars take_chars insert
saved = refl

same-file : file_of is_alnum "a/b" ≡ file_of is_alnum "a_b"
unfolding file_of safe_filename safe_chars take_chars
same-file = refl

-- The record of the run "a_b" is what is loaded for "a/b".
save-load_example : load is_alnum "a/b" files ≡ some kept
save-load_example = save-load is_alnum true "now" kept [] files "a/b" saved same-file

files-IsKeyed : IsKeyed is_alnum files
files-IsKeyed = save-IsKeyed is_alnum true "now" kept [] files tt saved

loaded : load is_alnum "a/b" files ≡ some kept
loaded = save-load is_alnum true "now" kept [] files "a/b" saved same-file

update_status_lem_example :
    (gs : Files) × (update_status is_alnum true "now" "a/b" "running" files ≡ inr gs)
    × IsKeyed is_alnum gs
    × (load is_alnum "a_b" gs ≡ some (with_status "running" kept))
    × ((name : String)
        → str_eq (file_of is_alnum "a_b") name ≡ false
        → lookup name gs ≡ lookup name files)
update_status_lem_example =
    update_status_lem is_alnum true "now" "a/b" "running" kept files refl files-IsKeyed loaded

abbrev asked : RunStatusResult String
asked = record {
  ok = true;
  run_id = "a_b";
  request_id = "";
  correlation_id = "";
  status = running;
  run_type = "";
  repo_name = null;
  shadow = bool false;
  ctxpack_digest = null;
  last_updated = null;
  summary = null;
  terminal_summary = null;
  resolved = true;
  server_backed = true;
  http_status_code = 200;
  response_data = "data";
  error_class = "";
  reason = "";
  repair_guidance = [];
}

abbrev outside : Resume.Outside ℕ String
outside = record {
  fetch_run_status = λ id repo n. (n + 1, asked);
  is_alnum = is_alnum;
  lower = λ s. s;
  writes = true;
  now = λ n. "later";
  note = λ s. s;
}

resume_run-IsKept_example : IsKept outside files (resume_run outside "a_b" null files 0)
resume_run-IsKept_example = resume_run-IsKept outside "a_b" null files 0 refl files-IsKeyed

abbrev answer : ℕ → Fields → Json → ℕ → ℕ × ((String × String) ⊎ (ℕ × Fields))
answer code d request n = (n + 1, inr (code, d))

fetch_run_status-Verdict_example :
    Verdict
      (λ s. s)
      (λ n. "n")
      (IsAnswered
        ((answer 200 (field "ok" (bool false) end) (status_request (λ s. s) (λ n. "n") "r") 0).1))
      ((fetch_run_status
        (λ s. s)
        (λ n. "n")
        (answer 200 (field "ok" (bool false) end))
        "r"
        null
        0).1)
fetch_run_status-Verdict_example =
    fetch_run_status-Verdict (λ s. s) (λ n. "n") (answer 200 (field "ok" (bool false) end)) "r" null
      0
