-- ===== src/Host/Doctor/Health.antt =====
-- doctor/reconciliation.py: the summary of a report, by the hosts.
use keyhole_sdk.Base.{
  ◌≡◌, refl, sym, ap, ◌∙◌, String, Bool, true, false, not, ◌&&◌, ◌||◌, List, [], ◌∷◌, truthy,
  str_eq, or_default, if◌then◌else◌, arith, Bool-cases, inl, inr,
}
use keyhole_sdk.Base.Dict.{lookup}
use keyhole_sdk.Base.Json.{Fields, end, is_end}
use keyhole_sdk.Host.Reconciler.{DoctorHostRecord, HostDiagnosis, not_detected, is_stale}
use keyhole_sdk.Host.Doctor.{
  all_ok, attention_required, degraded, Hosts, enrich, classify_host_diagnosis, is_not_detected,
  is_split, is_degraded, any_diagnosis, summary_of, reconcile_host, report_host, report_hosts,
  reconcile, check_connection_surfaces_available,
}

-- The host has a connection that the server shows, under some principal.
abbrev pub is_connected : Bool → DoctorHostRecord → Bool
is_connected available h =
    h.config_detected
    && h.keyhole_server_entry_detected
    && available
    && h.connection_visible_from_server
    && truthy (h.server_principal_user_id)

-- A detected host that is connected under another principal than the command line's.
abbrev pub differs : String → Bool → DoctorHostRecord → Bool
differs cli_user_id available h =
    h.detected && is_connected available h && not (str_eq (h.server_principal_user_id) cli_user_id)

-- A host that is not detected, or that is connected under the command line's principal, which is not
-- known to be stale.
abbrev pub is_healthy : String → Bool → DoctorHostRecord → Bool
is_healthy cli_user_id available h =
    not (h.detected)
    || (is_connected available h
        && str_eq (h.server_principal_user_id) cli_user_id
        && not (is_stale (h.staleness_state)))

classify_host_diagnosis-differs :
    (cli_user_id : String) (available : Bool) (h : DoctorHostRecord)
    → is_split (classify_host_diagnosis cli_user_id available h) ≡ differs cli_user_id available h
unfolding classify_host_diagnosis
classify_host_diagnosis-differs cli_user_id available h = ground arith

classify_host_diagnosis-degraded :
    (cli_user_id : String) (available : Bool) (h : DoctorHostRecord)
    → is_degraded (classify_host_diagnosis cli_user_id available h)
      ≡ not (is_healthy cli_user_id available h) && not (differs cli_user_id available h)
unfolding classify_host_diagnosis
classify_host_diagnosis-degraded cli_user_id available h = ground arith

enrich-detected :
    (cli_user_id : String) (d : Fields) (h : DoctorHostRecord)
    → (enrich cli_user_id d h).detected ≡ h.detected
unfolding enrich
enrich-detected cli_user_id d h = elim (Bool-cases (is_end d)) [
  | inl e ↦ simp e refl
  | inr e ↦ simp e refl
]

if_true : {A : Type 0} (b : Bool) (x y : A) → b ≡ true → (if b then x else y) ≡ x
if_true true x y e = refl
if_true false x y e = ground arith

if_false : {A : Type 0} (b : Bool) (x y : A) → b ≡ false → (if b then x else y) ≡ y
if_false false x y e = refl
if_false true x y e = ground arith

-- Hosts as they are found, before a diagnosis.
abbrev pub undiagnosed : List DoctorHostRecord → Hosts
undiagnosed [] = []
undiagnosed (h ∷ hs) = (h, not_detected) ∷ undiagnosed hs

abbrev pub any_of : (DoctorHostRecord → Bool) → List DoctorHostRecord → Bool
any_of test [] = false
any_of test (h ∷ hs) = test h || any_of test hs

classify_host_diagnosis-absent :
    (cli_user_id : String) (available : Bool) (h : DoctorHostRecord)
    → h.detected ≡ false
    → classify_host_diagnosis cli_user_id available h ≡ not_detected
unfolding classify_host_diagnosis
classify_host_diagnosis-absent cli_user_id available h e = rw (e, classify_host_diagnosis) refl

module _ (cli_user_id : String) (available : Bool) (truth : List (String × Fields)) where
  -- A host with what the server says of it.
  abbrev pub seen : DoctorHostRecord → DoctorHostRecord
  seen h = enrich cli_user_id (or_default (lookup (h.host_id) truth) end) h

  report_host-diagnosis :
      (h : DoctorHostRecord) (d : HostDiagnosis)
      → d ≡ classify_host_diagnosis cli_user_id available h
      → (report_host cli_user_id available truth (h, d)).1 ≡ d
  unfolding report_host
  report_host-diagnosis h d e = elim (Bool-cases (is_not_detected d && h.detected)) [
    | inl a ↦ simp a (sym e)
    | inr a ↦ simp a refl
  ]

  reported :
      (h : DoctorHostRecord)
      → (report_host cli_user_id available truth
          (reconcile_host cli_user_id available truth (h, not_detected))).1
        ≡ classify_host_diagnosis cli_user_id available (seen h)
  unfolding reconcile_host
  reported h =
      let d = classify_host_diagnosis cli_user_id available (seen h) in
      elim (Bool-cases (h.detected)) [
        | inl a ↦
            ap (λ p. (report_host cli_user_id available truth p).1)
              (if_true (h.detected) (seen h, d) (h, not_detected) a)
            ∙ report_host-diagnosis (seen h) d refl
        | inr a ↦
            ap (λ p. (report_host cli_user_id available truth p).1)
              (if_false (h.detected) (seen h, d) (h, not_detected) a)
            ∙ report_host-diagnosis h not_detected
                (sym (classify_host_diagnosis-absent cli_user_id available h a))
            ∙ sym (
                classify_host_diagnosis-absent cli_user_id available (seen h)
                  (enrich-detected cli_user_id (or_default (lookup (h.host_id) truth) end) h ∙ a))
      ]

  any_diagnosis-reported :
      (test : HostDiagnosis → Bool) (hs : List DoctorHostRecord)
      → any_diagnosis test (report_hosts cli_user_id available truth (undiagnosed hs))
        ≡ any_of (λ h. test (classify_host_diagnosis cli_user_id available (seen h))) hs
  unfolding report_hosts
  any_diagnosis-reported test [] = refl
  any_diagnosis-reported test (h ∷ hs) = rw (reported h, any_diagnosis-reported test hs) refl

any_of-same :
    (f g : DoctorHostRecord → Bool) (hs : List DoctorHostRecord)
    → ((h : DoctorHostRecord) → f h ≡ g h)
    → any_of f hs ≡ any_of g hs
any_of-same f g [] e = refl
any_of-same f g (h ∷ hs) e = rw (e h, any_of-same f g hs e) refl

any_of-without :
    (f g : DoctorHostRecord → Bool) (hs : List DoctorHostRecord)
    → any_of g hs ≡ false
    → any_of (λ h. f h && not (g h)) hs ≡ any_of f hs
any_of-without f g [] e = refl
any_of-without f g (h ∷ hs) e = ground (arith, any_of-without f g hs)

summary_of-any :
    (hs : Hosts) (split worse both : Bool)
    → any_diagnosis is_split hs ≡ split
    → any_diagnosis is_degraded hs ≡ both
    → (split ≡ false → both ≡ worse)
    → summary_of hs ≡ (if split then attention_required else if worse then degraded else all_ok)
unfolding summary_of
summary_of-any hs true worse both a b c = rw a refl
summary_of-any hs false worse both a b c = rw (a, b, c refl) refl

-- For hosts that have no diagnosis yet, the summary requires attention if some detected host is
-- connected under another principal than the command line's; else it is degraded if some host is not
-- healthy, which is to be undetected, or connected under the command line's principal and not known
-- to be stale; else all is well. Each host is taken with what the server says of it, and a host is
-- connected only where the server has the inspection of connections.
pub reconcile-summary :
    (cli_user_id : String) (hs : List DoctorHostRecord) (operations : List String)
    → (surfaces : Fields) (truth : List (String × Fields))
    → let available = check_connection_surfaces_available operations surfaces in
      let at = seen cli_user_id available truth in
      (reconcile cli_user_id (undiagnosed hs) operations surfaces truth).summary_status ≡ (
        if any_of (λ h. differs cli_user_id available (at h)) hs
        then attention_required
        else if any_of (λ h. not (is_healthy cli_user_id available (at h))) hs
        then degraded
        else all_ok)
unfolding reconcile
reconcile-summary cli_user_id hs operations surfaces truth =
    let available = check_connection_surfaces_available operations surfaces in
    let at = seen cli_user_id available truth in
    let reported_hosts = report_hosts cli_user_id available truth (undiagnosed hs) in
    let f : DoctorHostRecord → Bool = λ h. not (is_healthy cli_user_id available (at h)) in
    let g : DoctorHostRecord → Bool = λ h. differs cli_user_id available (at h) in
    summary_of-any reported_hosts (any_of g hs) (any_of f hs) (any_of (λ h. f h && not (g h)) hs)
      (any_diagnosis-reported cli_user_id available truth is_split hs
        ∙ any_of-same _ g hs (λ h. classify_host_diagnosis-differs cli_user_id available (at h)))
      (any_diagnosis-reported cli_user_id available truth is_degraded hs
        ∙ any_of-same _ (λ h. f h && not (g h)) hs
            (λ h. classify_host_diagnosis-degraded cli_user_id available (at h)))
      (any_of-without f g hs)
