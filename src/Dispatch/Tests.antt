-- ===== src/Dispatch/Tests.antt =====
-- Dispatches that are checked.
use keyhole_sdk.Base.{ℕ, ◌≡◌, ◌↔◌, refl, String, ◌&&◌, some, List, [], ◌∷◌, elem, truthy, inl}
use keyhole_sdk.Base.Dict.{lookup, insert}
use keyhole_sdk.Base.Json.{Json, str, Fields, end, field, get_field}
use keyhole_sdk.Base.Text.{
  strip, strip_left, strip_right, is_space, is_within, before, after, without, drop_chars,
}
use keyhole_sdk.Base.Texts.{sorted_texts, insert_text}
use keyhole_sdk.Dispatch.Models.{warn, reject}
use keyhole_sdk.Dispatch.Names.{canonical_run_types, known_mistakes}
use keyhole_sdk.Dispatch.Operations.{
  AmbiguousAlias, OperationObject, Index, defined, identifiers, distinct, from_capabilities,
  objects_of, build_indexes, index_operations, index_identifiers, resolve,
}
use keyhole_sdk.Dispatch.Operations.Resolution.{Shared, build_indexes-refused}
use keyhole_sdk.Dispatch.Operations.Normalized.{named_operation}
use keyhole_sdk.Dispatch.Validator.{
  Capabilities, validator_of, validator_from, incorporate_mistakes, incorporate_mistake,
  note_mistake, bracketed, after_sharing, find_close_matches, close_names, first_distinct,
}
use keyhole_sdk.Dispatch.Validator.Check.{check}
use keyhole_sdk.Dispatch.Validator.Verdict.{IsGrounded, check-IsGrounded}
use keyhole_sdk.Dispatch.Validator.Grounded.{IsFounded, check-IsFounded}
use keyhole_sdk.Dispatch.Schema.{static_helper, get_hint, required_of, missing_of, validate_params}
use keyhole_sdk.Dispatch.Preflight.{preflight, weigh, has_missing_required, is_missing_warning}
use keyhole_sdk.Dispatch.Preflight.Gate.{Decides, is_complete}
use keyhole_sdk.Dispatch.Preflight.Static.{static_preflight, preflight-static}

-- The texts are in lower case, and `str` of a text is the text.
abbrev same : String → String
same s = s

abbrev show : Json → String
show (str s) = s
show _ = ""

abbrev given : Fields
given = field "gap_id" (str "gap_1") end

missing_parameter :
    (preflight same (static_preflight known_mistakes) "gaps.get" (some end)).status ≡ reject
unfolding preflight check weigh has_missing_required is_missing_warning is_within get_hint
    validate_params required_of missing_of get_field lookup strip strip_left strip_right is_space
    resolve
missing_parameter = refl

-- The schema is looked up by the text as it stands, the run type without its outer spaces.
spaces_hide_parameter :
    (preflight same (static_preflight known_mistakes) " gaps.get" (some end)).status ≡ warn
unfolding preflight check weigh has_missing_required is_missing_warning is_within get_hint
    validate_params required_of missing_of get_field lookup strip strip_left strip_right is_space
    resolve
spaces_hide_parameter = refl

guessed_name :
    (check same (validator_of known_mistakes) "gap.status").suggestions ≡ "gaps.status" ∷ []
unfolding check lookup strip strip_left strip_right is_space resolve
guessed_name = refl

close_name :
    (check same (validator_of known_mistakes) "auth.logout").suggestions
    ≡ "auth.login_complete" ∷ "auth.login_request" ∷ "auth.register" ∷ []
unfolding check lookup strip strip_left strip_right is_space resolve find_close_matches close_names
    first_distinct sorted_texts insert_text before
close_name = refl

abbrev published : String → List String → Capabilities
published mistake aliases = record {
  implemented_surfaces = [];
  run_type_mistakes = mistake ∷ [];
  operations =
      defined (record {
        identity = 0;
        definition = record (named_operation "runs.fetch") { aliases = aliases };
      })
      ∷ [];
}

-- What one answer says of a known mistake stays in the table for later validators.
table_is_shared :
    lookup "gaps.next"
      ((validator_from show same known_mistakes (published "gaps.next (use gaps.list)" [])).0)
    ≡ some ("gaps.next_open_canonical" ∷ "gaps.list" ∷ [])
unfolding validator_from incorporate_mistakes incorporate_mistake note_mistake bracketed
    after_sharing lookup insert strip strip_left strip_right is_space is_within before after without
    drop_chars
table_is_shared = refl

alias_is_resolved :
    (check same
      ((validator_from show same known_mistakes (published "x" ("fetch" ∷ []))).1)
      " fetch").canonical_run_type
    ≡ "runs.fetch"
unfolding validator_from check lookup strip strip_left strip_right is_space resolve
    from_capabilities objects_of build_indexes index_operations index_identifiers insert identifiers
    distinct
alias_is_resolved = refl

preflight-static_example :
    Decides (preflight same (static_preflight known_mistakes) "gaps.get" (some given)) (
      truthy "gaps.get"
      && elem "gaps.get" canonical_run_types
      && is_complete (get_hint static_helper "gaps.get") (some given))
unfolding strip strip_left strip_right is_space
preflight-static_example = preflight-static same known_mistakes "gaps.get" (some given) refl

check-IsGrounded_example :
    IsGrounded canonical_run_types
      ((check same (validator_of known_mistakes) "auth.logout").suggestions)
unfolding lookup strip strip_left strip_right is_space
check-IsGrounded_example = check-IsGrounded same (validator_of known_mistakes) "auth.logout" refl

check-IsFounded_example :
    let capabilities = published "x" ("fetch" ∷ []) in
    let v = (validator_from show same known_mistakes capabilities).1 in
    IsFounded v (objects_of show (capabilities.operations)) (strip " fetch") (check same v " fetch")
unfolding validator_from check lookup strip strip_left strip_right is_space resolve
    from_capabilities objects_of build_indexes index_operations index_identifiers insert identifiers
    distinct
check-IsFounded_example =
    check-IsFounded same same show known_mistakes (published "x" ("fetch" ∷ [])) " fetch" refl

abbrev fetch_object : ℕ → OperationObject
fetch_object n = record { identity = n; definition = named_operation "runs.fetch" }

abbrev built : Index
built = ("runs.fetch", fetch_object 0) ∷ []

refused_index :
    build_indexes (fetch_object 0 ∷ fetch_object 1 ∷ [])
    ≡ inl (record { identifier = "runs.fetch"; existing = "runs.fetch"; other = "runs.fetch" })
unfolding build_indexes index_operations index_identifiers insert lookup identifiers distinct
refused_index = refl

build_indexes-refused_example :
    let os = fetch_object 0 ∷ fetch_object 1 ∷ [] in
    ((e : AmbiguousAlias) × (build_indexes os ≡ inl e)) ↔ ((id : String) × Shared os id)
build_indexes-refused_example = build_indexes-refused (fetch_object 0 ∷ fetch_object 1 ∷ [])
