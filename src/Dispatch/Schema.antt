-- ===== src/Dispatch/Schema.antt =====
-- dispatch/schema.py: what is known of the parameters of a run type.
use keyhole_sdk.Base.{
  String, Bool, true, false, not, ◌&&◌, Option, none, some, List, [], ◌∷◌, ◌++◌, is_empty, is_some,
  truthy, or_str, map, if◌then◌else◌,
}
use keyhole_sdk.Base.Dict.{lookup}
use keyhole_sdk.Base.Json.{Json, Fields, end, get_field, get_json, is_end}
use keyhole_sdk.Base.Text.{◌<>◌}
use keyhole_sdk.Base.Texts.{sorted_texts}
use keyhole_sdk.Dispatch.Models.{SchemaHint, request_of}
use keyhole_sdk.Dispatch.Schemas.{known_schemas}
use keyhole_sdk.Dispatch.Operations.{
  OperationObject, OperationDefinition, Index, resolve, from_capabilities, texts_of,
}
use keyhole_sdk.Dispatch.Validator.{Capabilities, registry_of}
use keyhole_sdk.Dispatch.Validator.Check.{resolved_in}

pub record SchemaHelper : Type 0 where
  pub schemas : List (String × SchemaHint)
  pub discovered_registry : Option Index

abbrev pub static_helper : SchemaHelper
static_helper = record { schemas = known_schemas; discovered_registry = none }

abbrev pub plain_hint : String → Bool → String → SchemaHint
plain_hint run_type available notes = record {
  run_type = run_type;
  available = available;
  required_params = [];
  optional_params = [];
  example = end;
  notes = notes;
  input_schema = end;
  output_schema = end;
  schema_source = "";
  canonical_run_type = "";
  operation_name = "";
}

unfoldable pub with_surfaces : List String → List (String × SchemaHint) → List (String × SchemaHint)
unfolding lookup
with_surfaces [] schemas = schemas
with_surfaces (s ∷ ss) schemas = with_surfaces ss (
    if truthy s && not (is_some (lookup s schemas))
    then schemas
      ++ (
        s,
        plain_hint s true
            "Discovered via capabilities. Consult schema discovery for parameter details.",
      )
        ∷ []
    else schemas)

-- `SchemaHelper.from_capabilities`
unfoldable pub helper_from : (Json → String) → Capabilities → SchemaHelper
unfolding with_surfaces from_capabilities
helper_from show capabilities = record {
  schemas = with_surfaces (capabilities.implemented_surfaces) known_schemas;
  discovered_registry = registry_of (from_capabilities show (capabilities.operations));
}

-- The hint for an operation that the server advertises.
abbrev pub live_hint : OperationDefinition → SchemaHint
live_hint o = record {
  run_type = o.canonical_run_type;
  available = true;
  required_params = [];
  optional_params = [];
  example = request_of (o.canonical_run_type) end;
  notes = "Schema discovered from live capability contract.";
  input_schema = o.input_schema;
  output_schema = o.output_schema;
  schema_source = "live_capabilities";
  canonical_run_type = o.canonical_run_type;
  operation_name = o.operation_name;
}

abbrev pub fallback_hint : OperationDefinition → Option SchemaHint → SchemaHint
fallback_hint o (some hint) = record hint {
  canonical_run_type = o.canonical_run_type;
  operation_name = o.operation_name;
  schema_source = "static_fallback";
}
fallback_hint o none =
    record (plain_hint (o.canonical_run_type) false
      ("No live or static schema available for '" <> (o.canonical_run_type <> "'."))) {
        schema_source = "unavailable";
        canonical_run_type = o.canonical_run_type;
        operation_name = o.operation_name;
      }

abbrev pub table_hint : String → Option SchemaHint → SchemaHint
table_hint run_type (some hint) = record hint {
  schema_source = or_str (hint.schema_source) "static";
  canonical_run_type = or_str (hint.canonical_run_type) run_type;
  operation_name = or_str (hint.operation_name) run_type;
}
table_hint run_type none = plain_hint run_type false (
    "No schema available for '"
    <> (run_type
        <> "'. Re-discover via GET /mcp/v1/capabilities or consult published guidance before assuming request shape."))

abbrev pub hint_for : SchemaHelper → String → Option OperationObject → SchemaHint
hint_for helper run_type none = table_hint run_type (lookup run_type (helper.schemas))
hint_for helper run_type (some o) =
    if not (is_end (o.definition.input_schema))
    then live_hint (o.definition)
    else fallback_hint (o.definition) (lookup (o.definition.canonical_run_type) (helper.schemas))

unfoldable pub get_hint : SchemaHelper → String → SchemaHint
unfolding lookup resolve
get_hint helper run_type =
    hint_for helper run_type (resolved_in (helper.discovered_registry) run_type)

-- The required parameters of a hint: its own, else those of its input schema.
unfoldable pub required_of : SchemaHint → List String
unfolding get_field
required_of hint =
    if is_empty (hint.required_params)
    then texts_of (get_json "required" (hint.input_schema))
    else hint.required_params

abbrev pub missing_warning : String → String → String
missing_warning run_type req =
    "Required parameter '" <> (req <> ("' is missing for '" <> (run_type <> "'.")))

abbrev pub unavailable_warning : String → String
unavailable_warning run_type =
    "Schema unavailable for '" <> (run_type <> "'. Cannot validate parameters. Re-discover first.")

-- The required parameters that are not given.
unfoldable pub missing_of : Fields → List String → List String
unfolding get_field
missing_of params [] = []
missing_of params (req ∷ reqs) =
    let rest = missing_of params reqs in if is_some (get_field req params) then rest else req ∷ rest

abbrev pub warnings_for : String → List String → List String
warnings_for run_type missing = map (missing_warning run_type) missing

abbrev pub param_warnings : SchemaHint → String → Option Fields → List String
param_warnings hint run_type none = []
param_warnings hint run_type (some params) =
    warnings_for run_type (missing_of params (required_of hint))

unfoldable pub validate_params : SchemaHelper → String → Option Fields → List String
unfolding get_hint required_of missing_of
validate_params helper run_type params =
    let hint = get_hint helper run_type in
    if not (hint.available)
    then unavailable_warning run_type ∷ []
    else param_warnings hint run_type params

-- `known_run_types`
abbrev pub known_run_types : SchemaHelper → List String
known_run_types helper = sorted_texts (map (λ entry. entry.0) (helper.schemas))
