-- ===== src/Dispatch/Validator/Check.antt =====
-- dispatch/validator.py: RunTypeValidator.check.
use keyhole_sdk.Base.{String, not, Option, none, some, List, [], ◌∷◌, elem, truthy, if◌then◌else◌}
use keyhole_sdk.Base.Dict.{lookup}
use keyhole_sdk.Base.Text.{◌<>◌, strip}
use keyhole_sdk.Dispatch.Models.{
  invalid, unknown, ambiguous, discovery_unavailable, RunTypeCheckResult,
}
use keyhole_sdk.Dispatch.Operations.{OperationObject, Index, resolve}
use keyhole_sdk.Dispatch.Validator.{
  RunTypeValidator, find_close_matches, mistake_reason, close_reason, refused, recognised,
}

abbrev pub resolved_in : Option Index → String → Option OperationObject
resolved_in none run_type = none
resolved_in (some index) run_type = resolve index run_type

abbrev pub unrecognised : RunTypeValidator → String → RunTypeCheckResult
unrecognised v run_type =
    if truthy (v.discovery_ambiguous_reason)
    then refused run_type ambiguous []
        ("The refreshed server capability contract contains ambiguous operation aliases: "
          <> v.discovery_ambiguous_reason)
        run_type
    else refused run_type (if v.discovery_is_unavailable then discovery_unavailable else unknown) []
        (if v.discovery_is_unavailable
          then "'" <> (run_type <> "' is not recognized and live discovery is unavailable.")
          else if v.discovery_attempted
          then "Operation was not found in the static registry or the refreshed server capability contract."
          else "'" <> (run_type <> "' is not recognized."))
        run_type

module _ (lower : String → String) where
  abbrev pub by_family : RunTypeValidator → String → List String → RunTypeCheckResult
  by_family v run_type [] = unrecognised v run_type
  by_family v run_type (c ∷ cs) =
      refused run_type invalid (c ∷ cs) (close_reason run_type (c ∷ cs)) ""

  abbrev pub by_mistake : RunTypeValidator → String → Option (List String) → RunTypeCheckResult
  by_mistake v run_type none =
      by_family v run_type (find_close_matches lower (v.canonical) run_type)
  by_mistake v run_type (some suggestions) =
      refused run_type invalid suggestions (mistake_reason run_type suggestions) ""

  abbrev pub by_table : RunTypeValidator → String → RunTypeCheckResult
  by_table v run_type =
      if elem run_type (v.canonical)
      then recognised run_type "Canonical run type." "known_static" run_type run_type
      else by_mistake v run_type (lookup run_type (v.mistakes))

  abbrev pub by_registry : RunTypeValidator → String → Option OperationObject → RunTypeCheckResult
  by_registry v run_type none = by_table v run_type
  by_registry v run_type (some o) =
      recognised (o.definition.canonical_run_type) "Discovered from live capability contract."
        "known_discovered" run_type (o.definition.operation_name)

  -- A blank run type is refused as it stands; another is looked up without its outer spaces.
  unfoldable pub check : RunTypeValidator → String → RunTypeCheckResult
  unfolding lookup strip find_close_matches resolve
  check v run_type =
      if not (truthy (strip run_type))
      then refused run_type invalid [] "Run type must be a non-empty string." ""
      else by_registry v (strip run_type) (resolved_in (v.discovered_registry) (strip run_type))
