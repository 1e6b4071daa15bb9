-- ===== src/Host/Tests.antt =====
-- Verdicts on concrete hosts.
use keyhole_sdk.Base.{
  ◌≡◌, String, Bool, true, false, Option, none, some, List, [], ◌∷◌, is_empty, str_eq,
}
use keyhole_sdk.Host.Coherence.{
  HostIdentityAttestation, IdentityPolicyOverride, confirmed, classify_coherence,
}
use keyhole_sdk.Host.Verdicts.{expected, classify_coherence-verdict}
use keyhole_sdk.Base.{if◌then◌else◌, not}
use keyhole_sdk.Base.Json.{end}
use keyhole_sdk.Host.Doctor.{
  all_ok, attention_required, degraded, inspect_run_type, check_connection_surfaces_available,
  reconcile,
}
use keyhole_sdk.Host.Doctor.Health.{
  undiagnosed, any_of, differs, is_healthy, seen, reconcile-summary,
}
use keyhole_sdk.Host.Reconciler.{DoctorHostRecord, vscode, fresh, reconcile_three_layer}
use keyhole_sdk.Host.Layers.{is_aligned, is_split, needs_nothing, reconcile_three_layer-verdict}

abbrev lower : String → String
lower s = s

abbrev if_known : Bool → Bool → Option Bool
if_known true b = some true
if_known false true = some false
if_known false false = none

abbrev not_after : String → Option Bool
not_after s = if_known (str_eq s "later") (str_eq s "before")

abbrev host : String → String → HostIdentityAttestation
host who expiry = record {
  host_kind = "vscode";
  effective_principal = who;
  confidence = confirmed;
  expires_at = expiry;
}

abbrev hosts : List HostIdentityAttestation
hosts = host "ada" "later" ∷ host "bob" "later" ∷ host "bob" "before" ∷ []

abbrev override_for : String → IdentityPolicyOverride
override_for who = record { target_principal = who; expiry = none }

classify_coherence-verdict_example :
    (classify_coherence lower not_after "ada" hosts none).verdict
    ≡ expected lower not_after "ada" hosts none
classify_coherence-verdict_example = classify_coherence-verdict lower not_after "ada" hosts none

abbrev found : DoctorHostRecord
found = record {
  host_id = "h";
  host_family = vscode;
  detected = true;
  config_detected = true;
  keyhole_server_entry_detected = true;
  auth_source_mode = "oauth";
  configured_principal_source = "ada";
  connection_visible_from_server = true;
  connection_id = "c";
  server_principal_user_id = "ada";
  server_principal_label = "Ada";
  staleness_state = fresh;
}

reconcile_three_layer-verdict_example :
    (is_aligned (reconcile_three_layer "ada" "Ada" found true).diagnosis ≡ true)
    × (is_split (reconcile_three_layer "ada" "Ada" found true).diagnosis ≡ false)
    × (is_empty (reconcile_three_layer "ada" "Ada" found true).recommended_actions
        ≡ needs_nothing (reconcile_three_layer "ada" "Ada" found true).diagnosis)
reconcile_three_layer-verdict_example = reconcile_three_layer-verdict "ada" "Ada" found true

reconcile-summary_example :
    let available = check_connection_surfaces_available (inspect_run_type ∷ []) end in
    let at = seen "ada" available [] in
    (reconcile "ada" (undiagnosed (found ∷ [])) (inspect_run_type ∷ []) end []).summary_status ≡ (
      if any_of (λ h. differs "ada" available (at h)) (found ∷ [])
      then attention_required
      else if any_of (λ h. not (is_healthy "ada" available (at h))) (found ∷ [])
      then degraded
      else all_ok)
reconcile-summary_example = reconcile-summary "ada" (found ∷ []) (inspect_run_type ∷ []) end []
