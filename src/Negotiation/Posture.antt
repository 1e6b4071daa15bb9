-- ===== src/Negotiation/Posture.antt =====
-- negotiation/*.py: the posture that a negotiation reports, and what it means for the commands.
use keyhole_sdk.Base.{
  ◌≡◌, refl, sym, ◌∙◌, String, Bool, true, false, ◌&&◌, List, [], ◌∷◌, arith, is_empty, or_default,
  if◌then◌else◌,
}
use keyhole_sdk.Base.Dict.{lookup}
use keyhole_sdk.Negotiation.Surfaces.{
  NegotiatedFeatures, CapabilitiesResult, has, to_dict, features_of, entries_of, classify_surfaces,
  surface_taxonomy, summary_of, collect_by_class, negotiate, NegotiationStatus, compatible,
  degraded, blocked,
}
use keyhole_sdk.Negotiation.Commands

-- Every name is one of a feature that is there.
abbrev pub all_there : NegotiatedFeatures → List String → Bool
all_there f [] = true
all_there f (s ∷ ss) = if has f s then all_there f ss else false

missing_of-none :
    (f : NegotiatedFeatures) (ss : List String)
    → is_empty (Commands.missing_of f ss) ≡ all_there f ss
missing_of-none f [] = refl
missing_of-none f (s ∷ ss) = ground (arith, missing_of-none f ss)

-- A command is blocked exactly if a surface that it requires is missing, else degraded exactly if
-- one that it can use is missing.
evaluate_command-status :
    (command : String) (f : NegotiatedFeatures)
    → (Commands.evaluate_command command f).status ≡ (
        if all_there f (Commands.required_of command)
        then (if all_there f (Commands.optional_of command)
            then Commands.allowed
            else Commands.degraded)
        else Commands.blocked)
unfolding Commands.evaluate_command
evaluate_command-status command f = ground (
  arith,
  missing_of-none f (Commands.required_of command),
  missing_of-none f (Commands.optional_of command),
)

-- The features on which the posture depends.
abbrev pub required_there : NegotiatedFeatures → Bool
required_there f = f.authenticated_identity && f.run_dispatch

abbrev pub optional_there : NegotiatedFeatures → Bool
optional_there f =
    f.run_async_accept && f.context_compile && f.explainability && f.support_bundle && f.run_tail
    && f.budget_visibility

abbrev pub posture : NegotiatedFeatures → NegotiationStatus
posture f =
    if required_there f then (if optional_there f then compatible else degraded) else blocked

summary_of-status :
    (f : NegotiatedFeatures) → (summary_of (entries_of f surface_taxonomy)).status ≡ posture f
unfolding summary_of entries_of collect_by_class has to_dict lookup
summary_of-status f = ground arith

-- A negotiation is blocked exactly if identity or dispatch is not declared, else degraded exactly if
-- one of the six optional surfaces is not.
pub negotiate-status :
    (now : String) (caps : CapabilitiesResult)
    → (negotiate now caps).compatibility.status ≡ posture (features_of caps)
unfolding negotiate classify_surfaces
negotiate-status now caps = summary_of-status (features_of caps)

-- Every name of every row is one of a feature that is there.
abbrev RowsThere : NegotiatedFeatures → List (String × List String) → Type 0
RowsThere f [] = Unit
RowsThere f ((k, ss) ∷ rows) = (all_there f ss ≡ true) × RowsThere f rows

RowsThere-lookup :
    (f : NegotiatedFeatures) (k : String) (rows : List (String × List String))
    → RowsThere f rows
    → all_there f (or_default (lookup k rows) []) ≡ true
unfolding lookup
RowsThere-lookup f k [] h = refl
RowsThere-lookup f k ((j, ss) ∷ rows) (h, hs) = ground (arith, h, RowsThere-lookup f k rows hs)

module _ (f : NegotiatedFeatures) (h : posture f ≡ compatible) where
  requirements-there : RowsThere f Commands.command_requirements
  unfolding has to_dict lookup
  requirements-there = ground arith

  optionals-there : RowsThere f Commands.command_optional_surfaces
  unfolding has to_dict lookup
  optionals-there = ground arith

-- A compatible negotiation allows every command.
negotiate-allows :
    (now command : String) (caps : CapabilitiesResult)
    → (negotiate now caps).compatibility.status ≡ compatible
    → (Commands.evaluate_command command (negotiate now caps).features).status ≡ Commands.allowed
unfolding negotiate classify_surfaces
negotiate-allows now command caps h =
    let f = features_of caps in
    let h' = sym (summary_of-status f) ∙ h in
    ground (
      arith,
      evaluate_command-status command f,
      RowsThere-lookup f command Commands.command_requirements (requirements-there f h'),
      RowsThere-lookup f command Commands.command_optional_surfaces (optionals-there f h'),
    )
