-- ===== src/Negotiation/Commands.antt =====
-- negotiation/evaluator.py: which commands the declared surfaces allow, degrade or block.
use keyhole_sdk.Base.{
  String, Bool, true, false, not, List, [], ◌∷◌, ◌++◌, elem, is_empty, or_default, if◌then◌else◌,
  filter,
}
use keyhole_sdk.Base.Dict.{lookup}
use keyhole_sdk.Base.Text.{◌<>◌}
use keyhole_sdk.Negotiation.Repair.{map_negotiation_repair}
use keyhole_sdk.Negotiation.Surfaces.{NegotiatedFeatures, has}

pub data CommandStatus : Type 0 where
  allowed degraded blocked : CommandStatus

pub record CommandCompatibilityResult : Type 0 where
  pub command : String
  pub status : CommandStatus
  pub required_missing : List String
  pub optional_missing : List String
  pub reason : String
  pub repair : List String

abbrev pub command_requirements : List (String × List String)
command_requirements =
    ("keyhole whoami", "authenticated_identity" ∷ [])
    ∷ ("keyhole login", [])
    ∷ ("keyhole run", "authenticated_identity" ∷ "run_dispatch" ∷ [])
    ∷ ("keyhole repo register", "authenticated_identity" ∷ "run_dispatch" ∷ [])
    ∷ ("keyhole context compile", "authenticated_identity" ∷ "context_compile" ∷ [])
    ∷ ("keyhole context inspect", "authenticated_identity" ∷ "context_compile" ∷ [])
    ∷ ("keyhole explain run", "authenticated_identity" ∷ "explainability" ∷ [])
    ∷ ("keyhole inspect", "authenticated_identity" ∷ "explainability" ∷ [])
    ∷ ("keyhole support-bundle", "authenticated_identity" ∷ "support_bundle" ∷ [])
    ∷ ("keyhole runs status", "authenticated_identity" ∷ [])
    ∷ ("keyhole runs wait", "authenticated_identity" ∷ [])
    ∷ ("keyhole runs tail", "authenticated_identity" ∷ "run_tail" ∷ [])
    ∷ ("keyhole runs list", "authenticated_identity" ∷ [])
    ∷ ("keyhole runs resume", "authenticated_identity" ∷ [])
    ∷ ("keyhole runs budget", "authenticated_identity" ∷ "budget_visibility" ∷ [])
    ∷ ("keyhole deregister", "authenticated_identity" ∷ "run_dispatch" ∷ [])
    ∷ ("keyhole surfaces", [])
    ∷ ("keyhole doctor", [])
    ∷ ("keyhole validate", [])
    ∷ []

abbrev pub command_optional_surfaces : List (String × List String)
command_optional_surfaces =
    ("keyhole run", "run_async_accept" ∷ [])
    ∷ ("keyhole runs wait", "run_async_accept" ∷ [])
    ∷ ("keyhole runs resume", "run_async_accept" ∷ [])
    ∷ ("keyhole explain run", "support_bundle" ∷ [])
    ∷ ("keyhole inspect", "support_bundle" ∷ [])
    ∷ ("keyhole deregister", "explainability" ∷ "support_bundle" ∷ [])
    ∷ []

-- Appends the steps that are not there yet.
unfoldable pub add_steps : List String → List String → List String
add_steps steps [] = steps
add_steps steps (step ∷ more) =
    add_steps (if elem step steps then steps else steps ++ step ∷ []) more

unfoldable pub repair_of : List String → List String → List String
unfolding add_steps
repair_of steps [] = steps
repair_of steps (surface ∷ surfaces) =
    repair_of (add_steps steps (map_negotiation_repair surface)) surfaces

unfoldable pub collect_repair : List String → Bool → List String
unfolding repair_of add_steps
collect_repair surfaces command_blocked =
    add_steps (repair_of [] surfaces)
      (map_negotiation_repair (if command_blocked then "command_blocked" else "command_degraded"))

-- `", ".join(texts)`
unfoldable pub join : List String → String
join [] = ""
join (s ∷ []) = s
join (s ∷ t ∷ ts) = s <> (", " <> join (t ∷ ts))

abbrev pub missing_of : NegotiatedFeatures → List String → List String
missing_of f names = filter (λ s. not (has f s)) names

abbrev pub required_of : String → List String
required_of command = or_default (lookup command command_requirements) []

abbrev pub optional_of : String → List String
optional_of command = or_default (lookup command command_optional_surfaces) []

unfoldable pub evaluate_command : String → NegotiatedFeatures → CommandCompatibilityResult
unfolding collect_repair join
evaluate_command command features =
    let missing_required = missing_of features (required_of command) in
    let missing_optional = missing_of features (optional_of command) in
    if not (is_empty missing_required)
    then record {
      command = command;
      status = blocked;
      required_missing = missing_required;
      optional_missing = [];
      reason = "Required surface(s) missing for '" <> (command <> ("': " <> join missing_required));
      repair = collect_repair missing_required true;
    }
    else if not (is_empty missing_optional)
    then record {
      command = command;
      status = degraded;
      required_missing = [];
      optional_missing = missing_optional;
      reason =
          "Optional surface(s) missing for '"
          <> (command
              <> ("': " <> (join missing_optional <> " — proceeding with reduced capability.")));
      repair = collect_repair missing_optional false;
    }
    else record {
      command = command;
      status = allowed;
      required_missing = [];
      optional_missing = [];
      reason = "";
      repair = [];
    }

unfoldable pub evaluate_rows :
    NegotiatedFeatures → List (String × List String) → List (String × CommandCompatibilityResult)
unfolding evaluate_command
evaluate_rows features [] = []
evaluate_rows features ((command, surfaces) ∷ rows) =
    (command, evaluate_command command features) ∷ evaluate_rows features rows

unfoldable pub evaluate_all_commands :
    NegotiatedFeatures → List (String × CommandCompatibilityResult)
unfolding evaluate_rows
evaluate_all_commands features = evaluate_rows features command_requirements
