-- ===== src/Negotiation/Surfaces.antt =====
-- negotiation/classifier.py and negotiation/negotiator.py: the surfaces that a server declares. The
-- normalized capabilities (discovery/models.py) are a record of what is read of them; the
-- descriptions of the surfaces are left out, and the current time is passed in.
use keyhole_sdk.Base.{
  ℕ, String, Bool, true, false, not, ◌||◌, Option, none, some, List, [], ◌∷◌, elem, is_empty, ltb,
  truthy, or_default, if◌then◌else◌,
}
use keyhole_sdk.Base.Dict.{lookup}

pub data SurfaceClass : Type 0 where
  required optional transitional : SurfaceClass

pub record SurfaceEntry : Type 0 where
  pub name : String
  pub surface_class : SurfaceClass
  pub present : Bool

pub record NegotiatedFeatures : Type 0 where
  pub authenticated_identity : Bool
  pub run_dispatch : Bool
  pub run_async_accept : Bool
  pub context_compile : Bool
  pub explainability : Bool
  pub support_bundle : Bool
  pub run_tail : Bool
  pub budget_visibility : Bool
  pub context_required_for_runs : Bool
  pub idempotency_required : Bool

pub record CapabilitiesResult : Type 0 where
  pub flags : List (String × Bool)
  pub implemented_surfaces : List String
  pub all_run_types : List String
  pub identity_endpoint : String
  pub run_dispatch_endpoint : String
  pub operations_implemented : ℕ
  pub contract_version : String
  pub digest : String

-- `bool(flags.get(name, False))`
abbrev pub flag : String → CapabilitiesResult → Bool
flag name caps = or_default (lookup name caps.flags) false

unfoldable pub features_of : CapabilitiesResult → NegotiatedFeatures
features_of caps = record {
  authenticated_identity = truthy caps.identity_endpoint;
  run_dispatch = truthy caps.run_dispatch_endpoint || ltb 0 caps.operations_implemented;
  run_async_accept = flag "run_async_accept" caps;
  context_compile =
      elem "context.compile" caps.implemented_surfaces
      || elem "context.compile" caps.all_run_types
      || flag "context_compile" caps;
  explainability = flag "explainability" caps;
  support_bundle = flag "support_bundle" caps;
  run_tail = flag "run_tail" caps;
  budget_visibility = flag "budget_visibility" caps;
  context_required_for_runs = flag "context_required_for_runs" caps;
  idempotency_required = flag "idempotency_required" caps;
}

-- The features by name, in the order of the taxonomy.
unfoldable pub to_dict : NegotiatedFeatures → List (String × Bool)
to_dict f =
    ("authenticated_identity", f.authenticated_identity)
    ∷ ("run_dispatch", f.run_dispatch)
    ∷ ("run_async_accept", f.run_async_accept)
    ∷ ("context_compile", f.context_compile)
    ∷ ("explainability", f.explainability)
    ∷ ("support_bundle", f.support_bundle)
    ∷ ("run_tail", f.run_tail)
    ∷ ("budget_visibility", f.budget_visibility)
    ∷ ("context_required_for_runs", f.context_required_for_runs)
    ∷ ("idempotency_required", f.idempotency_required)
    ∷ []

-- `bool(getattr(features, name, False))`
unfoldable pub has : NegotiatedFeatures → String → Bool
unfolding to_dict
has f name = or_default (lookup name (to_dict f)) false

abbrev pub surface_taxonomy : List (String × SurfaceClass)
surface_taxonomy =
    ("authenticated_identity", required)
    ∷ ("run_dispatch", required)
    ∷ ("run_async_accept", optional)
    ∷ ("context_compile", optional)
    ∷ ("explainability", optional)
    ∷ ("support_bundle", optional)
    ∷ ("run_tail", optional)
    ∷ ("budget_visibility", optional)
    ∷ ("context_required_for_runs", transitional)
    ∷ ("idempotency_required", transitional)
    ∷ []

unfoldable pub entries_of : NegotiatedFeatures → List (String × SurfaceClass) → List SurfaceEntry
unfolding has
entries_of f [] = []
entries_of f ((name, cls) ∷ rows) =
    record { name = name; surface_class = cls; present = has f name } ∷ entries_of f rows

unfoldable pub classify_surfaces : CapabilitiesResult → NegotiatedFeatures × List SurfaceEntry
unfolding features_of entries_of
classify_surfaces caps = (features_of caps, entries_of (features_of caps) surface_taxonomy)

abbrev pub same_class : SurfaceClass → SurfaceClass → Bool
same_class required required = true
same_class optional optional = true
same_class transitional transitional = true
same_class _ _ = false

-- `present is None or entry.present == present`
abbrev pub fits : Option Bool → Bool → Bool
fits none b = true
fits (some true) b = b
fits (some false) b = not b

unfoldable pub collect_by_class : SurfaceClass → Option Bool → List SurfaceEntry → List String
collect_by_class cls present [] = []
collect_by_class cls present (entry ∷ entries) =
    let rest = collect_by_class cls present entries in
    if not (same_class (entry.surface_class) cls)
    then rest
    else if not (fits present (entry.present))
    then rest
    else entry.name ∷ rest

pub data NegotiationStatus : Type 0 where
  compatible degraded blocked : NegotiationStatus

pub record CompatibilitySummary : Type 0 where
  pub status : NegotiationStatus
  pub required_missing : List String
  pub optional_missing : List String
  pub transitional_surfaces : List String

pub record NegotiationResult : Type 0 where
  pub server_version : String
  pub surface_fingerprint : String
  pub operations : List String
  pub features : NegotiatedFeatures
  pub compatibility : CompatibilitySummary
  pub negotiated_at : String

unfoldable pub summary_of : List SurfaceEntry → CompatibilitySummary
unfolding collect_by_class
summary_of entries =
    let required_missing = collect_by_class required (some false) entries in
    let optional_missing = collect_by_class optional (some false) entries in
    record {
      status =
          if not (is_empty required_missing)
          then blocked
          else if not (is_empty optional_missing)
          then degraded
          else compatible;
      required_missing = required_missing;
      optional_missing = optional_missing;
      transitional_surfaces = collect_by_class transitional none entries;
    }

unfoldable pub negotiate : String → CapabilitiesResult → NegotiationResult
unfolding classify_surfaces summary_of
negotiate now caps =
    let (features, entries) = classify_surfaces caps in
    record {
      server_version = caps.contract_version;
      surface_fingerprint = caps.digest;
      operations = caps.all_run_types;
      features = features;
      compatibility = summary_of entries;
      negotiated_at = now;
    }
