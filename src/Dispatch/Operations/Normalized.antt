-- ===== src/Dispatch/Operations/Normalized.antt =====
-- discovery/operations.py: the operations that are read from a capability answer.
-- An answer is a JSON object; `aliases` that is no list counts as an empty one.
use keyhole_sdk.Base.{
  String, false, List, [], ◌∷◌, ◌≡◌, refl, ap, truthy, if◌then◌else◌, arith, Bool-cases, inl, inr,
  eq_iff,
}
use keyhole_sdk.Base.Json.{
  Json, str, arr, obj, Items, nil, cons, Fields, end, field, get_field, get_json, or_json,
  truthy_json,
}
use keyhole_sdk.Dispatch.Operations.{
  OperationDefinition, from_dict, to_dict, shown, texts_of, items_of, non_empty_texts, safe_dict,
  or_dict,
}

-- An operation of which the name alone is known.
abbrev pub named_operation : String → OperationDefinition
named_operation name = record {
  operation_name = name;
  canonical_run_type = name;
  aliases = [];
  status = "";
  method = "";
  path = "";
  canonical_endpoint = end;
  governed = false;
  event_spine_evidence = false;
  required_authorization = end;
  input_schema = end;
  output_schema = end;
  capability_metadata = end;
  raw = end;
}

module _ (show : Json → String) (upper : String → String) where
  -- `_normalize_operation_dict`
  unfoldable pub normalize_operation_dict : String → Fields → OperationDefinition
  unfolding get_field
  normalize_operation_dict name_hint item =
      let endpoint = safe_dict (get_json "canonical_endpoint" item) in
      let method =
        show (or_json (get_json "method" item) (or_json (get_json "method" endpoint) (str ""))) in
      record {
        operation_name = show (
            or_json (get_json "operation_name" item) (
              or_json (get_json "operation_id" item) (
                or_json (get_json "name" item)
                  (or_json (get_json "operation" item) (or_json (str name_hint) (str ""))))));
        canonical_run_type = show (
            or_json (get_json "canonical_run_type" item)
              (or_json (get_json "run_type" item) (or_json (get_json "canonical" item) (str ""))));
        aliases = non_empty_texts (texts_of (get_json "aliases" item));
        status = shown show "status" item;
        method = if truthy method then upper method else "";
        path = show (or_json (get_json "path" item) (or_json (get_json "path" endpoint) (str "")));
        canonical_endpoint = endpoint;
        governed = truthy_json (get_json "governed" item);
        event_spine_evidence = truthy_json (get_json "event_spine_evidence" item);
        required_authorization = or_dict (safe_dict (get_json "required_authorization" item)) (
            or_dict (safe_dict (get_json "authorization" item)) (safe_dict (get_json "auth" item)));
        input_schema = safe_dict (get_json "input_schema" item);
        output_schema = safe_dict (get_json "output_schema" item);
        capability_metadata =
            or_dict (safe_dict (get_json "capability" item)) (safe_dict (get_json "metadata" item));
        raw = item;
      }

  -- The operations of an object, by their names, and those of a list.
  unfoldable pub named_operations : Fields → List OperationDefinition
  named_operations end = []
  named_operations (field name (obj spec) fs) =
      normalize_operation_dict name spec ∷ named_operations fs
  named_operations (field name spec fs) =
      let rest = named_operations fs in
      if truthy_json spec then named_operation name ∷ rest else rest

  unfoldable pub listed_operations : Items → List OperationDefinition
  listed_operations nil = []
  listed_operations (cons (str name) vs) = named_operation name ∷ listed_operations vs
  listed_operations (cons (obj item) vs) = normalize_operation_dict "" item ∷ listed_operations vs
  listed_operations (cons _ vs) = listed_operations vs

  abbrev pub operations_of : Json → List OperationDefinition
  operations_of (obj specs) = named_operations specs
  operations_of (arr items) = listed_operations items
  operations_of _ = []

  unfoldable pub normalize_operations_from_capabilities : Fields → List OperationDefinition
  unfolding get_field
  normalize_operations_from_capabilities raw = operations_of (get_json "operations" (body raw))
    where
      body : Fields → Fields
      body d = elim (get_json "data" d) [ obj e ↦ e | _ ↦ d ]

texts_of-items_of : (ss : List String) → texts_of (arr (items_of ss)) ≡ ss
texts_of-items_of [] = refl
texts_of-items_of (s ∷ ss) = ap (λ r. s ∷ r) (texts_of-items_of ss)

shown_text :
    (show : Json → String)
    → ((s : String) → show (str s) ≡ s)
    → (s : String) → show (or_json (str s) (str "")) ≡ s
shown_text show id s = elim (Bool-cases (truthy s)) [
  | inl e ↦ ground (arith, id s)
  | inr e ↦ ground (arith, id "", eq_iff s "")
]

-- Where `str` of a text is the text, an operation is read back from its own dict.
from_dict-to_dict :
    (show : Json → String) (id : (s : String) → show (str s) ≡ s) (o : OperationDefinition)
    → from_dict show (to_dict o) ≡ o
unfolding from_dict get_field
from_dict-to_dict show id o = λ i. record {
  operation_name = shown_text show id (o.operation_name) i;
  canonical_run_type = shown_text show id (o.canonical_run_type) i;
  aliases = texts_of-items_of (o.aliases) i;
  status = shown_text show id (o.status) i;
  method = shown_text show id (o.method) i;
  path = shown_text show id (o.path) i;
  canonical_endpoint = o.canonical_endpoint;
  governed = o.governed;
  event_spine_evidence = o.event_spine_evidence;
  required_authorization = o.required_authorization;
  input_schema = o.input_schema;
  output_schema = o.output_schema;
  capability_metadata = o.capability_metadata;
  raw = o.raw;
}
