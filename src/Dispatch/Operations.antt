-- ===== src/Dispatch/Operations.antt =====
-- discovery/operations.py: the operations that the server advertises, and their registry.
-- An object is its identity and its contents: the registry compares objects by `is`. `str` of a JSON
-- value, `str.upper` and the identities are parameters.
pub mod Index
pub mod Normalized
pub mod Resolution
use keyhole_sdk.Base.{
  ℕ, String, Bool, true, false, not, ◌&&◌, ◌⊎◌, inl, inr, Option, none, some, List, [], ◌∷◌, elem,
  truthy, ◌==◌, if◌then◌else◌,
}
use keyhole_sdk.Base.Dict.{lookup, insert}
use keyhole_sdk.Base.Json.{
  Json, null, bool, str, arr, obj, Items, nil, cons, Fields, end, field, get_json, get_field,
  or_json, truthy_json, is_end,
}
use keyhole_sdk.Base.Text.{strip}

pub record OperationDefinition : Type 0 where
  pub operation_name : String
  pub canonical_run_type : String
  pub aliases : List String
  pub status : String
  pub method : String
  pub path : String
  pub canonical_endpoint : Fields
  pub governed : Bool
  pub event_spine_evidence : Bool
  pub required_authorization : Fields
  pub input_schema : Fields
  pub output_schema : Fields
  pub capability_metadata : Fields
  pub raw : Fields

-- The texts of `values` that are neither empty nor seen.
unfoldable pub distinct : List String → List String → List String
distinct seen [] = []
distinct seen (v ∷ vs) =
    let fresh = truthy v && not (elem v seen) in
    let rest = distinct (if fresh then v ∷ seen else seen) vs in if fresh then v ∷ rest else rest

unfoldable pub identifiers : OperationDefinition → List String
unfolding distinct
identifiers o = distinct [] (o.operation_name ∷ o.canonical_run_type ∷ o.aliases)

abbrev pub items_of : List String → Items
items_of [] = nil
items_of (s ∷ ss) = cons (str s) (items_of ss)

abbrev pub to_dict : OperationDefinition → Fields
to_dict o = field "operation_name" (str (o.operation_name)) (
    field "canonical_run_type" (str (o.canonical_run_type)) (
      field "aliases" (arr (items_of (o.aliases))) (
        field "status" (str (o.status)) (
          field "method" (str (o.method)) (
            field "path" (str (o.path)) (
              field "canonical_endpoint" (obj (o.canonical_endpoint)) (
                field "governed" (bool (o.governed)) (
                  field "event_spine_evidence" (bool (o.event_spine_evidence)) (
                    field "required_authorization" (obj (o.required_authorization)) (
                      field "input_schema" (obj (o.input_schema)) (
                        field "output_schema" (obj (o.output_schema)) (
                          field "capability_metadata" (obj (o.capability_metadata))
                            (field "raw" (obj (o.raw)) end)))))))))))))

-- `_safe_dict`
abbrev pub safe_dict : Json → Fields
safe_dict (obj d) = d
safe_dict _ = end

abbrev pub or_dict : Fields → Fields → Fields
or_dict d e = if is_end d then e else d

-- The texts of a list. A value that is no list has none; Python stops at one that cannot be iterated.
abbrev pub texts_of : Json → List String
texts_of (arr vs) = texts vs
  where
    texts : Items → List String
    texts nil = []
    texts (cons (str s) ws) = s ∷ texts ws
    texts (cons _ ws) = texts ws
texts_of _ = []

abbrev pub non_empty_texts : List String → List String
non_empty_texts [] = []
non_empty_texts (s ∷ ss) = let rest = non_empty_texts ss in if truthy s then s ∷ rest else rest

module _ (show : Json → String) where
  -- `str(d.get(k) or "")`
  abbrev pub shown : String → Fields → String
  shown k d = show (or_json (get_json k d) (str ""))

  unfoldable pub from_dict : Fields → OperationDefinition
  unfolding get_field
  from_dict d = record {
    operation_name = shown "operation_name" d;
    canonical_run_type = shown "canonical_run_type" d;
    aliases = texts_of (get_json "aliases" d);
    status = shown "status" d;
    method = shown "method" d;
    path = shown "path" d;
    canonical_endpoint = safe_dict (get_json "canonical_endpoint" d);
    governed = truthy_json (get_json "governed" d);
    event_spine_evidence = truthy_json (get_json "event_spine_evidence" d);
    required_authorization = safe_dict (get_json "required_authorization" d);
    input_schema = safe_dict (get_json "input_schema" d);
    output_schema = safe_dict (get_json "output_schema" d);
    capability_metadata = safe_dict (get_json "capability_metadata" d);
    raw = safe_dict (get_json "raw" d);
  }

-- An object: its identity, and its contents.
pub record OperationObject : Type 0 where
  pub identity : ℕ
  pub definition : OperationDefinition

-- Two operations that advertise one identifier.
pub record AmbiguousAlias : Type 0 where
  pub identifier : String
  pub existing : String
  pub other : String

abbrev pub Index : Type 0
Index = List (String × OperationObject)

abbrev pub is_other : OperationObject → Option OperationObject → Bool
is_other o none = false
is_other o (some p) = not (p.identity == o.identity)

abbrev pub name_in : Option OperationObject → String
name_in none = ""
name_in (some p) = p.definition.operation_name

-- `_build_indexes`, for the identifiers of one operation, and for all operations.
unfoldable pub index_identifiers : OperationObject → List String → Index → AmbiguousAlias ⊎ Index
unfolding lookup insert
index_identifiers o [] index = inr index
index_identifiers o (k ∷ ks) index = elim (is_other o (lookup k index)) [
  | true ↦ inl (record {
    identifier = k;
    existing = name_in (lookup k index);
    other = o.definition.operation_name;
  })
  | false ↦ index_identifiers o ks (insert k o index)
]

unfoldable pub index_operations : List OperationObject → Index → AmbiguousAlias ⊎ Index
unfolding index_identifiers identifiers
index_operations [] index = inr index
index_operations (o ∷ os) index = elim (index_identifiers o (identifiers (o.definition)) index) [
  | inl e ↦ inl e
  | inr next ↦ index_operations os next
]

unfoldable pub build_indexes : List OperationObject → AmbiguousAlias ⊎ Index
unfolding index_operations
build_indexes operations = index_operations operations []

-- `resolve`
unfoldable pub resolve : Index → String → Option OperationObject
unfolding lookup strip
resolve index identifier = lookup (strip identifier) index

-- An item of `capabilities_result.operations`: an operation, a dict of which an operation with a new
-- identity is made, or something else.
pub data Advertised : Type 0 where
  defined : OperationObject → Advertised
  described : ℕ → Fields → Advertised
  other_item : Advertised

module _ (show : Json → String) where
  abbrev pub object_of : Advertised → Option OperationObject
  object_of (defined o) = some o
  object_of (described n d) = some (record { identity = n; definition = from_dict show d })
  object_of other_item = none

  unfoldable pub objects_of : List Advertised → List OperationObject
  objects_of [] = []
  objects_of (a ∷ rest) = with_object (object_of a) (objects_of rest)
    where
      with_object : Option OperationObject → List OperationObject → List OperationObject
      with_object none os = os
      with_object (some o) os = if truthy (o.definition.canonical_run_type) then o ∷ os else os

  -- `DiscoveredOperationRegistry.from_capabilities`
  unfoldable pub from_capabilities : List Advertised → AmbiguousAlias ⊎ Index
  unfolding objects_of build_indexes
  from_capabilities operations = build_indexes (objects_of operations)
