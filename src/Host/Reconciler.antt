-- ===== src/Host/Reconciler.antt =====
-- host/reconciler.py: the comparison of the three identity layers of a host.
use keyhole_sdk.Base.{String, Bool, true, false, not, List, [], ◌∷◌, str_eq, truthy, if◌then◌else◌}
use keyhole_sdk.Base.Text.{◌<>◌}

pub data HostFamily : Type 0 where
  vscode jetbrains cloud_code sdk_local unknown_family : HostFamily

pub data StalenessState : Type 0 where
  fresh stale_confirmed unknown_staleness : StalenessState

pub data HostDiagnosis : Type 0 where
  aligned split_identity stale_connection stale_host_auth host_not_configured host_config_unreadable
        live_connection_missing reconnect_required unsupported_host surface_unavailable scope_denied
        ambiguous_connection not_detected :
      HostDiagnosis

pub data RecommendedAction : Type 0 where
  rebind invalidate_reconnect keep_as_is upgrade_server use_generic_whoami install_host_entry
        install_host_credentials repair_host_config refresh_host restart_host reload_mcp_extension
        rerun_doctor :
      RecommendedAction

-- The fields that the comparison reads.
pub record DoctorHostRecord : Type 0 where
  pub host_id : String
  pub host_family : HostFamily
  pub detected : Bool
  pub config_detected : Bool
  pub keyhole_server_entry_detected : Bool
  pub auth_source_mode : String
  pub configured_principal_source : String
  pub connection_visible_from_server : Bool
  pub connection_id : String
  pub server_principal_user_id : String
  pub server_principal_label : String
  pub staleness_state : StalenessState

pub record ThreeLayerIdentity : Type 0 where
  pub host_id : String
  pub host_family : HostFamily
  pub cli_user_id : String
  pub cli_profile_label : String
  pub host_configured_principal : String
  pub host_auth_mode : String
  pub server_user_id : String
  pub server_principal_label : String
  pub server_connection_id : String
  pub server_staleness : StalenessState
  pub diagnosis : HostDiagnosis
  pub recommended_actions : List RecommendedAction
  pub description : String

abbrev pub is_stale : StalenessState → Bool
is_stale stale_confirmed = true
is_stale _ = false

-- The part of the answer that the branches fill in.
pub record Finding : Type 0 where
  pub diagnosis : HostDiagnosis
  pub actions : List RecommendedAction
  pub description : String

abbrev finding : HostDiagnosis → List RecommendedAction → String → Finding
finding d a t = record { diagnosis = d; actions = a; description = t }

unfoldable pub diagnose : String → DoctorHostRecord → Bool → Finding
diagnose cli_user_id r connection_surfaces_available =
    if not r.detected
    then finding not_detected [] "Host not detected on this machine."
    else if not r.config_detected
    then finding host_config_unreadable (repair_host_config ∷ [])
        "Host detected but config is unreadable."
    else if not r.keyhole_server_entry_detected
    then finding host_not_configured (install_host_credentials ∷ [])
        "Host detected but no Keyhole MCP server entry configured."
    else if not connection_surfaces_available
    then finding surface_unavailable (upgrade_server ∷ [])
        "Connection surfaces not available. Cannot verify live identity alignment."
    else if not r.connection_visible_from_server
    then finding live_connection_missing (refresh_host ∷ restart_host ∷ [])
        "Host has Keyhole entry but no live connection visible from server."
    else if not (truthy r.server_principal_user_id)
    then finding ambiguous_connection (rerun_doctor ∷ [])
        "Server returned ambiguous connection identity."
    else if str_eq r.server_principal_user_id cli_user_id
    then (if is_stale r.staleness_state
        then finding stale_host_auth (refresh_host ∷ [])
            "Identity aligned but host auth may be stale."
        else finding aligned [] "All three identity layers are aligned.")
    else finding split_identity (keep_as_is ∷ rebind ∷ invalidate_reconnect ∷ []) (
        "CLI profile ("
        <> (cli_user_id
            <> (") and server connection ("
                <> (r.server_principal_user_id <> ") are different principals."))))

unfoldable pub reconcile_three_layer :
    String → String → DoctorHostRecord → Bool → ThreeLayerIdentity
unfolding diagnose
reconcile_three_layer cli_user_id cli_profile_label r connection_surfaces_available =
    let f = diagnose cli_user_id r connection_surfaces_available in
    record {
      host_id = r.host_id;
      host_family = r.host_family;
      cli_user_id = cli_user_id;
      cli_profile_label = cli_profile_label;
      host_configured_principal = r.configured_principal_source;
      host_auth_mode = r.auth_source_mode;
      server_user_id = r.server_principal_user_id;
      server_principal_label = r.server_principal_label;
      server_connection_id = r.connection_id;
      server_staleness = r.staleness_state;
      diagnosis = f.diagnosis;
      recommended_actions = f.actions;
      description = f.description;
    }
