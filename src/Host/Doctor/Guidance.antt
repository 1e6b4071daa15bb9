-- ===== src/Host/Doctor/Guidance.antt =====
-- doctor/diagnostics.py: what a builder is told to do about a diagnosis.
use keyhole_sdk.Base.{◌≡◌, refl, String, Bool, true, false, List, [], ◌∷◌, is_empty}
use keyhole_sdk.Base.Text.{◌<>◌}
use keyhole_sdk.Host.Reconciler.{
  DoctorHostRecord, HostDiagnosis, aligned, split_identity, stale_connection, stale_host_auth,
  host_not_configured, host_config_unreadable, live_connection_missing, reconnect_required,
  unsupported_host, surface_unavailable, scope_denied, ambiguous_connection, not_detected,
  RecommendedAction, rebind, invalidate_reconnect, keep_as_is, upgrade_server, use_generic_whoami,
  install_host_entry, install_host_credentials, repair_host_config, refresh_host, restart_host,
  reload_mcp_extension, rerun_doctor,
}

pub data ReconnectRequirement : Type 0 where
  no_reconnect reload_window restart_ide restart_extension manual : ReconnectRequirement

pub record RepairGuidance : Type 0 where
  pub host_id : String
  pub diagnosis : HostDiagnosis
  pub actions : List RecommendedAction
  pub descriptions : List String
  pub commands : List String

-- `_reconnect_hint`; the family is not looked at.
abbrev pub reconnect_hint : ReconnectRequirement → String
reconnect_hint no_reconnect = ""
reconnect_hint reload_window = "Reload the VS Code window (Ctrl+Shift+P → 'Reload Window')."
reconnect_hint restart_ide = "Restart the IDE to pick up config changes."
reconnect_hint restart_extension = "Restart the MCP extension."
reconnect_hint manual = "Follow host documentation for reconnection steps."

abbrev pub actions_for : HostDiagnosis → List RecommendedAction
actions_for not_detected = install_host_entry ∷ rerun_doctor ∷ []
actions_for unsupported_host = rerun_doctor ∷ []
actions_for host_config_unreadable = repair_host_config ∷ rerun_doctor ∷ []
actions_for host_not_configured = install_host_credentials ∷ rerun_doctor ∷ []
actions_for surface_unavailable = upgrade_server ∷ use_generic_whoami ∷ []
actions_for stale_connection = refresh_host ∷ invalidate_reconnect ∷ []
actions_for live_connection_missing = refresh_host ∷ restart_host ∷ []
actions_for stale_host_auth = refresh_host ∷ install_host_credentials ∷ []
actions_for reconnect_required = restart_host ∷ reload_mcp_extension ∷ []
actions_for scope_denied = rerun_doctor ∷ []
actions_for split_identity = keep_as_is ∷ rebind ∷ invalidate_reconnect ∷ []
actions_for ambiguous_connection = rerun_doctor ∷ []
actions_for aligned = []

abbrev pub descriptions_for : HostDiagnosis → String → String → List String
descriptions_for not_detected host_id hint =
    "Verify the host is installed." ∷ "Add a Keyhole MCP server entry to the host configuration."
    ∷ "Rerun 'keyhole doctor' to verify." ∷ []
descriptions_for unsupported_host host_id hint =
    ("Host '" <> (host_id <> "' was detected but is not supported for automated setup."))
    ∷ "Check host documentation for MCP server configuration."
    ∷ []
descriptions_for host_config_unreadable host_id hint =
    ("Host '" <> (host_id <> "' was detected but its configuration is unreadable."))
    ∷ "Check file permissions and JSON validity of the host config."
    ∷ []
descriptions_for host_not_configured host_id hint =
    ("Host '" <> (host_id <> "' is installed but has no Keyhole MCP server entry."))
    ∷ "Install credentials to connect the host to the MCP boundary."
    ∷ hint
    ∷ []
descriptions_for surface_unavailable host_id hint =
    "The server does not support connection-truth surfaces."
    ∷ "Upgrade the server or use 'keyhole whoami' for generic identity."
    ∷ "Do not assume host alignment without server confirmation." ∷ []
descriptions_for stale_connection host_id hint =
    "The host connection is not visible from the server."
    ∷ "Ensure the host has opened a Keyhole connection."
    ∷ "Refresh the host or invalidate and reconnect." ∷ hint ∷ []
descriptions_for live_connection_missing host_id hint =
    "Host has Keyhole entry but no live connection is visible from the server."
    ∷ "The host may need to reconnect." ∷ hint ∷ []
descriptions_for stale_host_auth host_id hint =
    "Host identity is aligned but the auth token may be stale."
    ∷ "Refresh or reinstall credentials." ∷ hint ∷ []
descriptions_for reconnect_required host_id hint =
    "Credentials were updated but the host needs to reconnect." ∷ hint ∷ []
descriptions_for scope_denied host_id hint =
    "The host connection was rejected by the server due to scope."
    ∷ "Check the host's charter and workspace configuration." ∷ []
descriptions_for split_identity host_id hint =
    ("CLI profile and host '" <> (host_id <> "' are executing as different principals."))
    ∷ "Keep the current host identity, rebind to the active profile, or invalidate the connection and reconnect."
    ∷ []
descriptions_for ambiguous_connection host_id hint =
    "The server returned an ambiguous connection identity."
    ∷ "Retry the doctor scan or inspect the connection directly." ∷ []
descriptions_for aligned host_id hint = "No action required — host identity is aligned." ∷ []

abbrev pub commands_for : HostDiagnosis → String → List String
commands_for not_detected host_id =
    ("keyhole host install --host " <> host_id) ∷ "keyhole doctor" ∷ []
commands_for unsupported_host host_id = "keyhole doctor" ∷ []
commands_for host_config_unreadable host_id =
    ("keyhole host inspect --host " <> host_id) ∷ "keyhole doctor" ∷ []
commands_for host_not_configured host_id =
    ("keyhole host install --host " <> host_id) ∷ "keyhole doctor" ∷ []
commands_for surface_unavailable host_id = "keyhole whoami" ∷ []
commands_for stale_connection host_id =
    "keyhole connections list"
    ∷ ("keyhole connection invalidate --host " <> (host_id <> " --yes"))
    ∷ []
commands_for live_connection_missing host_id =
    ("keyhole host inspect --host " <> host_id) ∷ "keyhole connections list" ∷ []
commands_for stale_host_auth host_id =
    ("keyhole host install --host " <> (host_id <> " --force")) ∷ []
commands_for reconnect_required host_id = []
commands_for scope_denied host_id = "keyhole doctor" ∷ []
commands_for split_identity host_id =
    ("keyhole connection rebind --host " <> (host_id <> " --profile <profile>"))
    ∷ ("keyhole connection invalidate --host " <> (host_id <> " --yes"))
    ∷ []
commands_for ambiguous_connection host_id =
    ("keyhole connection inspect --host " <> host_id) ∷ "keyhole doctor" ∷ []
commands_for aligned host_id = []

unfoldable pub build_repair_guidance :
    String → HostDiagnosis → ReconnectRequirement → RepairGuidance
build_repair_guidance host_id diagnosis requirement = record {
  host_id = host_id;
  diagnosis = diagnosis;
  actions = actions_for diagnosis;
  descriptions = descriptions_for diagnosis host_id (reconnect_hint requirement);
  commands = commands_for diagnosis host_id;
}

abbrev pub is_aligned : HostDiagnosis → Bool
is_aligned aligned = true
is_aligned _ = false

-- There is an action exactly for a host that is not aligned, and always a description.
build_repair_guidance-actions :
    (host_id : String) (diagnosis : HostDiagnosis) (requirement : ReconnectRequirement)
    → let g = build_repair_guidance host_id diagnosis requirement in
      (is_empty (g.actions) ≡ is_aligned diagnosis) × (is_empty (g.descriptions) ≡ false)
unfolding build_repair_guidance
build_repair_guidance-actions host_id not_detected requirement = (refl, refl)
build_repair_guidance-actions host_id unsupported_host requirement = (refl, refl)
build_repair_guidance-actions host_id host_config_unreadable requirement = (refl, refl)
build_repair_guidance-actions host_id host_not_configured requirement = (refl, refl)
build_repair_guidance-actions host_id surface_unavailable requirement = (refl, refl)
build_repair_guidance-actions host_id stale_connection requirement = (refl, refl)
build_repair_guidance-actions host_id live_connection_missing requirement = (refl, refl)
build_repair_guidance-actions host_id stale_host_auth requirement = (refl, refl)
build_repair_guidance-actions host_id reconnect_required requirement = (refl, refl)
build_repair_guidance-actions host_id scope_denied requirement = (refl, refl)
build_repair_guidance-actions host_id split_identity requirement = (refl, refl)
build_repair_guidance-actions host_id ambiguous_connection requirement = (refl, refl)
build_repair_guidance-actions host_id aligned requirement = (refl, refl)

pub record DoctorHostEntry : Type 0 where
  pub host_id : String
  pub diagnosis : HostDiagnosis
  pub current_connection_principal : String
  pub recommended_actions : List RecommendedAction

-- The entry of a host in a report.
unfoldable pub entry_of : ReconnectRequirement → DoctorHostRecord × HostDiagnosis → DoctorHostEntry
entry_of requirement (h, d) = record {
  host_id = h.host_id;
  diagnosis = d;
  current_connection_principal = h.server_principal_label;
  recommended_actions = (build_repair_guidance (h.host_id) d requirement).actions;
}
