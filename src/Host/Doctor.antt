-- ===== src/Host/Doctor.antt =====
-- doctor/reconciliation.py and doctor/diagnostics.py: the diagnosis of each host, and the summary of
-- a report. A host stands beside its diagnosis, which the code keeps in the record. Values of the
-- server's data that are no texts are outside the model.
pub mod Health
pub mod Guidance
use keyhole_sdk.Base.{
  String, Bool, true, false, not, ◌&&◌, ◌||◌, Option, none, some, List, [], ◌∷◌, elem, str_eq,
  truthy, or_default, if◌then◌else◌,
}
use keyhole_sdk.Base.Dict.{lookup}
use keyhole_sdk.Base.Json.{
  Json, str, arr, obj, Items, nil, cons, Fields, end, field, get_field, is_end,
}
use keyhole_sdk.Host.Reconciler.{
  DoctorHostRecord, HostDiagnosis, aligned, split_identity, stale_connection, stale_host_auth,
  host_not_configured, host_config_unreadable, live_connection_missing, reconnect_required,
  surface_unavailable, ambiguous_connection, not_detected, StalenessState, fresh, stale_confirmed,
  unknown_staleness, is_stale,
}

pub data DoctorSummaryStatus : Type 0 where
  all_ok attention_required degraded : DoctorSummaryStatus

abbrev pub inspect_run_type : String
inspect_run_type = "connection.identity.inspect"

-- Whether a run type of the connection surfaces is the inspection.
abbrev pub is_inspection : Json → Bool
is_inspection (str s) = str_eq s inspect_run_type
is_inspection (obj d) = elim (get_field "run_type" d) [
  | some (str s) ↦ str_eq s inspect_run_type
  | _ ↦ false
]
is_inspection _ = false

abbrev pub any_inspection : Items → Bool
any_inspection nil = false
any_inspection (cons v vs) = is_inspection v || any_inspection vs

unfoldable pub check_connection_surfaces_available : List String → Fields → Bool
unfolding get_field
check_connection_surfaces_available server_operations connection_surfaces =
    elem inspect_run_type server_operations || elim (get_field "run_types" connection_surfaces) [
      | some (arr vs) ↦ any_inspection vs
      | _ ↦ false
    ]

abbrev pub text_at : String → Fields → String
text_at k d = elim (get_field k d) [ some (str s) ↦ s | _ ↦ "" ]

abbrev pub staleness_of : String → String → StalenessState
staleness_of cli_user_id user_id =
    if str_eq user_id cli_user_id
    then fresh
    else if truthy user_id
    then stale_confirmed
    else unknown_staleness

-- A record with what the server says of the host's connection, if it says something.
unfoldable pub enrich : String → Fields → DoctorHostRecord → DoctorHostRecord
unfolding get_field
enrich cli_user_id host_data h = if is_end host_data then h else (record h {
  connection_visible_from_server = true;
  connection_id = text_at "connection_id" host_data;
  server_principal_user_id = text_at "user_id" host_data;
  server_principal_label = text_at "principal" host_data;
  staleness_state = staleness_of cli_user_id (text_at "user_id" host_data);
})

unfoldable pub classify_host_diagnosis : String → Bool → DoctorHostRecord → HostDiagnosis
classify_host_diagnosis cli_user_id surfaces_available h =
    if not (h.detected)
    then not_detected
    else if not (h.config_detected)
    then host_config_unreadable
    else if not (h.keyhole_server_entry_detected)
    then host_not_configured
    else if not surfaces_available
    then surface_unavailable
    else if not (h.connection_visible_from_server)
    then live_connection_missing
    else if not (truthy (h.server_principal_user_id))
    then ambiguous_connection
    else if not (str_eq (h.server_principal_user_id) cli_user_id)
    then split_identity
    else if is_stale (h.staleness_state)
    then stale_host_auth
    else aligned

abbrev pub is_not_detected : HostDiagnosis → Bool
is_not_detected not_detected = true
is_not_detected _ = false

abbrev pub is_split : HostDiagnosis → Bool
is_split split_identity = true
is_split _ = false

abbrev pub is_degraded : HostDiagnosis → Bool
is_degraded stale_connection = true
is_degraded stale_host_auth = true
is_degraded live_connection_missing = true
is_degraded host_not_configured = true
is_degraded host_config_unreadable = true
is_degraded reconnect_required = true
is_degraded ambiguous_connection = true
is_degraded surface_unavailable = true
is_degraded _ = false

abbrev pub Hosts : Type 0
Hosts = List (DoctorHostRecord × HostDiagnosis)

module _ (cli_user_id : String) (surfaces_available : Bool) (truth : List (String × Fields)) where
  -- One round of the loop of `reconcile`.
  unfoldable pub reconcile_host :
      DoctorHostRecord × HostDiagnosis → DoctorHostRecord × HostDiagnosis
  unfolding enrich classify_host_diagnosis
  reconcile_host (h, d) =
      let enriched = enrich cli_user_id (or_default (lookup (h.host_id) truth) end) h in
      if h.detected
      then (enriched, classify_host_diagnosis cli_user_id surfaces_available enriched)
      else (h, d)

  -- One round of the loop of `build_doctor_report`: a host without a diagnosis is given one.
  unfoldable pub report_host : DoctorHostRecord × HostDiagnosis → DoctorHostRecord × HostDiagnosis
  unfolding classify_host_diagnosis
  report_host (h, d) =
      if is_not_detected d && h.detected
      then (h, classify_host_diagnosis cli_user_id surfaces_available h)
      else (h, d)

  unfoldable pub report_hosts : Hosts → Hosts
  unfolding reconcile_host report_host
  report_hosts [] = []
  report_hosts (h ∷ hs) = report_host (reconcile_host h) ∷ report_hosts hs

abbrev pub any_diagnosis : (HostDiagnosis → Bool) → Hosts → Bool
any_diagnosis test [] = false
any_diagnosis test (h ∷ hs) = test h.1 || any_diagnosis test hs

unfoldable pub summary_of : Hosts → DoctorSummaryStatus
summary_of hs =
    if any_diagnosis is_split hs
    then attention_required
    else if any_diagnosis is_degraded hs
    then degraded
    else all_ok

pub record DoctorReport : Type 0 where
  pub hosts : Hosts
  pub summary_status : DoctorSummaryStatus
  pub connection_surfaces_available : Bool

unfoldable pub reconcile :
    String → Hosts → List String → Fields → List (String × Fields) → DoctorReport
unfolding check_connection_surfaces_available report_hosts summary_of
reconcile cli_user_id hosts server_operations connection_surfaces connection_truth =
    let available = check_connection_surfaces_available server_operations connection_surfaces in
    let reported = report_hosts cli_user_id available connection_truth hosts in
    record {
      hosts = reported;
      summary_status = summary_of reported;
      connection_surfaces_available = available;
    }
