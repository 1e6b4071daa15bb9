-- ===== src/Host/Layers.antt =====
-- host/reconciler.py: when the three layers are aligned, and what is recommended.
use keyhole_sdk.Base.{◌≡◌, String, Bool, true, false, not, ◌&&◌, arith, is_empty, str_eq, truthy}
use keyhole_sdk.Host.Reconciler.{
  DoctorHostRecord, HostDiagnosis, aligned, split_identity, not_detected, is_stale, diagnose,
  reconcile_three_layer,
}

-- The host is set up and the server sees a connection of it with a principal.
abbrev pub is_live : DoctorHostRecord → Bool → Bool
is_live r available =
    r.detected
    && r.config_detected
    && r.keyhole_server_entry_detected
    && available
    && r.connection_visible_from_server
    && truthy r.server_principal_user_id

abbrev pub is_aligned : HostDiagnosis → Bool
is_aligned aligned = true
is_aligned _ = false

abbrev pub is_split : HostDiagnosis → Bool
is_split split_identity = true
is_split _ = false

abbrev pub needs_nothing : HostDiagnosis → Bool
needs_nothing aligned = true
needs_nothing not_detected = true
needs_nothing _ = false

-- A host is aligned exactly if it is live, the server's principal is the command line's, and it is
-- not known to be stale; its identity is split exactly if it is live and the principals differ; and
-- nothing is recommended exactly for an aligned host and one that is not there.
pub reconcile_three_layer-verdict :
    (user label : String) (r : DoctorHostRecord) (available : Bool)
    → (is_aligned (reconcile_three_layer user label r available).diagnosis ≡ (
        is_live r available
        && str_eq r.server_principal_user_id user
        && not (is_stale r.staleness_state)))
      × (is_split (reconcile_three_layer user label r available).diagnosis
          ≡ (is_live r available && not (str_eq r.server_principal_user_id user)))
      × (is_empty (reconcile_three_layer user label r available).recommended_actions
          ≡ needs_nothing (reconcile_three_layer user label r available).diagnosis)
unfolding reconcile_three_layer diagnose
reconcile_three_layer-verdict user label r available = (ground arith, ground arith, ground arith)
