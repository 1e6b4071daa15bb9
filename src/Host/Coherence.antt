-- ===== src/Host/Coherence.antt =====
-- host/coherence_engine.py and the attestations of doctor/models.py. `str.lower` and the parsing of
-- an ISO-8601 text with its comparison to the present are parameters. Descriptions and fix steps are
-- left out, as are the fields of an attestation that the classification does not read.
use keyhole_sdk.Base.{
  String, Bool, true, false, not, Option, none, some, List, [], ◌∷◌, is_empty, str_eq, truthy,
  or_default, if◌then◌else◌,
}
use keyhole_sdk.Base.Text.{strip}

pub data AttestationConfidence : Type 0 where
  confirmed probable unknown_confidence : AttestationConfidence

pub data CoherenceVerdict : Type 0 where
  accept_match warning_no_host_attestation warning_stale_host_attestation
        warning_unknown_host_identity reject_host_conflict accept_intentional_split :
      CoherenceVerdict

pub record HostIdentityAttestation : Type 0 where
  pub host_kind : String
  pub effective_principal : String
  pub confidence : AttestationConfidence
  pub expires_at : String

pub record IdentityPolicyOverride : Type 0 where
  pub target_principal : String
  pub expiry : Option String

pub record CoherenceResult : Type 0 where
  pub verdict : CoherenceVerdict
  pub cli_principal : String
  pub conflicting_attestations : List HostIdentityAttestation
  pub matching_attestations : List HostIdentityAttestation
  pub stale_attestations : List HostIdentityAttestation
  pub unknown_attestations : List HostIdentityAttestation
  pub override : Option IdentityPolicyOverride

-- The four lists that the loop fills.
pub record Buckets : Type 0 where
  pub matching : List HostIdentityAttestation
  pub conflicting : List HostIdentityAttestation
  pub stale : List HostIdentityAttestation
  pub unknown : List HostIdentityAttestation

abbrev pub is_confirmed : AttestationConfidence → Bool
is_confirmed confirmed = true
is_confirmed _ = false

-- `not_after text` is whether now is at most the time of the text, with none for the ValueError or
-- the TypeError of parsing or comparing it.
module _ (lower : String → String) (not_after : String → Option Bool) where
  unfoldable pub principals_match : String → String → Bool
  principals_match a b = str_eq (lower (strip a)) (lower (strip b))

  unfoldable pub is_fresh : HostIdentityAttestation → Bool
  is_fresh a = or_default (not_after (a.expires_at)) false

  abbrev pub past : Option Bool → Bool
  past none = false
  past (some before) = not before

  unfoldable pub is_expired : IdentityPolicyOverride → Bool
  is_expired o = elim (o.expiry) [
    | none ↦ false
    | some t ↦ if truthy t then past (not_after t) else false
  ]

  unfoldable pub sort_attestations : String → List HostIdentityAttestation → Buckets
  unfolding is_fresh principals_match
  sort_attestations cli [] = record { matching = []; conflicting = []; stale = []; unknown = [] }
  sort_attestations cli (a ∷ others) =
      let rest = sort_attestations cli others in
      if not (is_fresh a)
      then record rest { stale = a ∷ rest.stale }
      else if not (is_confirmed (a.confidence))
      then record rest { unknown = a ∷ rest.unknown }
      else if principals_match (a.effective_principal) cli
      then record rest { matching = a ∷ rest.matching }
      else record rest { conflicting = a ∷ rest.conflicting }

  unfoldable pub in_force : Option IdentityPolicyOverride → Bool
  unfolding is_expired
  in_force none = false
  in_force (some o) = not (is_expired o)

  abbrev warning : CoherenceVerdict → String → CoherenceResult
  warning verdict cli = record {
    verdict = verdict;
    cli_principal = cli;
    conflicting_attestations = [];
    matching_attestations = [];
    stale_attestations = [];
    unknown_attestations = [];
    override = none;
  }

  -- The decision tree over the sorted attestations.
  unfoldable pub decide : String → Option IdentityPolicyOverride → Buckets → CoherenceResult
  unfolding in_force
  decide cli override b =
      if not (is_empty (b.conflicting))
      then (record {
        verdict = if in_force override then accept_intentional_split else reject_host_conflict;
        cli_principal = cli;
        conflicting_attestations = b.conflicting;
        matching_attestations = b.matching;
        stale_attestations = b.stale;
        unknown_attestations = b.unknown;
        override = if in_force override then override else none;
      })
      else if not (is_empty (b.matching))
      then (record (warning accept_match cli) {
        matching_attestations = b.matching;
        stale_attestations = b.stale;
        unknown_attestations = b.unknown;
      })
      else if not (is_empty (b.stale))
      then (record (warning warning_stale_host_attestation cli) {
        stale_attestations = b.stale;
        unknown_attestations = b.unknown;
      })
      else (record (warning warning_unknown_host_identity cli) { unknown_attestations = b.unknown })

  unfoldable pub classify_coherence :
      String → List HostIdentityAttestation → Option IdentityPolicyOverride → CoherenceResult
  unfolding sort_attestations decide
  classify_coherence cli attestations override =
      if not (truthy cli)
      then warning warning_no_host_attestation ""
      else if is_empty attestations
      then warning warning_no_host_attestation cli
      else decide cli override (sort_attestations cli attestations)
