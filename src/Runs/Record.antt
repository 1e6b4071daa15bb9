-- ===== src/Runs/Record.antt =====
-- run_lifecycle/record.py: the records of runs that are kept in a repository's directory.
-- The directory is the list of its record files, in the order in which it lists them: a name with the
-- JSON value the file holds, `none` where the file cannot be read. `str.isalnum` of a character, the
-- clock, and whether files can be written are parameters. A field of a record that holds no text
-- where one is expected is outside the model.
pub mod Keys
use keyhole_sdk.Base.{
  ℕ, String, Bool, true, false, not, ◌&&◌, ◌||◌, ◌⊎◌, inl, inr, Option, none, some, List, [], ◌∷◌,
  or_str, or_default, str_eq, truthy, is_some, if◌then◌else◌,
}
use Prim.Native.Char.{Char}
use keyhole_sdk.Base.Dict.{lookup, insert}
use keyhole_sdk.Base.Json.{Json, str, obj, Fields, end, field, get_field}
use keyhole_sdk.Base.Text.{◌<>◌, take_chars}

pub record RunRecord : Type 0 where
  pub request_id : String
  pub run_id : String
  pub command : String
  pub mode : String
  pub run_type : String
  pub ctxpack_digest : Json
  pub submitted_at : String
  pub last_known_status : String
  pub proof_path : String
  pub repo_name : Json
  pub repo_path : String
  pub correlation_id : String

-- `to_dict` with the time of the write, which `save` adds.
unfoldable pub to_dict : RunRecord → String → Fields
to_dict r now = field "request_id" (str (r.request_id)) (
    field "run_id" (str (r.run_id)) (
      field "command" (str (r.command)) (
        field "mode" (str (r.mode)) (
          field "run_type" (str (r.run_type)) (
            field "ctxpack_digest" (r.ctxpack_digest) (
              field "submitted_at" (str (r.submitted_at)) (
                field "last_known_status" (str (r.last_known_status)) (
                  field "proof_path" (str (r.proof_path)) (
                    field "repo_name" (r.repo_name) (
                      field "repo_path" (str (r.repo_path)) (
                        field "correlation_id" (str (r.correlation_id))
                          (field "updated_at" (str now) end))))))))))))

abbrev pub text_or : Option Json → String → String
text_or (some (str s)) d = s
text_or _ d = d

unfoldable pub from_dict : Fields → RunRecord
unfolding get_field
from_dict d = record {
  request_id = text_or (get_field "request_id" d) "";
  run_id = text_or (get_field "run_id" d) "";
  command = text_or (get_field "command" d) "keyhole run";
  mode = text_or (get_field "mode" d) "regular";
  run_type = text_or (get_field "run_type" d) "";
  ctxpack_digest = or_default (get_field "ctxpack_digest" d) (str "");
  submitted_at = text_or (get_field "submitted_at" d) "";
  last_known_status = text_or (get_field "last_known_status" d) "accepted";
  proof_path = text_or (get_field "proof_path" d) "";
  repo_name = or_default (get_field "repo_name" d) (str "");
  repo_path = text_or (get_field "repo_path" d) "";
  correlation_id = text_or (get_field "correlation_id" d) "";
}

abbrev pub Files : Type 0
Files = List (String × Option Json)

-- What `save` raises.
pub data SaveError : Type 0 where
  missing_key write_failed : SaveError

-- `_parse_file`
abbrev pub parse_file : Option Json → Option RunRecord
parse_file (some (obj d)) = some (from_dict d)
parse_file _ = none

-- `record.run_id or record.request_id or record.correlation_id`
abbrev pub key_of : RunRecord → String
key_of r = or_str (r.run_id) (or_str (r.request_id) (r.correlation_id))

-- `_scan_for` tests one record.
abbrev pub names : String → RunRecord → Bool
names identifier r =
    str_eq (r.run_id) identifier
    || str_eq (r.request_id) identifier
    || str_eq (r.correlation_id) identifier

unfoldable pub scan_for : String → Files → Option RunRecord
unfolding from_dict
scan_for identifier [] = none
scan_for identifier ((name, content) ∷ fs) =
    let rest = scan_for identifier fs in
    elim (parse_file content) [ none ↦ rest | some r ↦ if names identifier r then some r else rest ]

abbrev pub with_status : String → RunRecord → RunRecord
with_status status r = record r { last_known_status = status }

module _ (is_alnum : Char → Bool) where
  -- The characters before the cut at 128.
  unfoldable pub safe_chars : String → String
  safe_chars String.[] = ""
  safe_chars (String.◌∷◌ c s) =
      let rest = safe_chars s in
      let one = String.◌∷◌ c String.[] in
      (if is_alnum c || str_eq one "-" || str_eq one "_" || str_eq one "." then one else "_")
      <> rest

  unfoldable pub safe_filename : String → String
  unfolding safe_chars take_chars
  safe_filename key = take_chars 128 (safe_chars key)

  unfoldable pub file_of : String → String
  unfolding safe_filename
  file_of key = safe_filename key <> ".json"

  unfoldable pub load : String → Files → Option RunRecord
  unfolding file_of scan_for from_dict
  load run_id fs = elim (lookup (file_of run_id) fs) [
    | some content ↦ parse_file content
    | none ↦ scan_for run_id fs
  ]

  module _ (writes : Bool) (now : String) where
    unfoldable pub save : RunRecord → Files → SaveError ⊎ Files
    unfolding to_dict file_of
    save r fs =
        if not writes
        then inl write_failed
        else if not (truthy (key_of r))
        then inl missing_key
        else inr (insert (file_of (key_of r)) (some (obj (to_dict r now))) fs)

    -- The files are as they were where there is no record.
    unfoldable pub update_status : String → String → Files → SaveError ⊎ Files
    unfolding save load
    update_status run_id status fs = elim (load run_id fs) [
      | none ↦ inr fs
      | some r ↦ save (with_status status r) fs
    ]
