-- ===== src/Dispatch/Validator.antt =====
-- dispatch/validator.py: the validation of an intended run type.
-- A set is a list of its members. `str.lower`, `repr` and `str` of a JSON value are parameters, and an
-- intended run type is a text. The lists of the table of known mistakes are shared: a validator that
-- is made from an answer appends to them, so that the table is a part of the state.
pub mod Check
pub mod Verdict
pub mod Grounded
use keyhole_sdk.Base.{
  ℕ, zero, suc, String, Bool, true, false, not, ◌&&◌, ◌||◌, ◌⊎◌, inl, inr, Option, none, some, List,
  [], ◌∷◌, ◌++◌, elem, is_empty, truthy, or_default, leb, if◌then◌else◌, ◌+◌,
}
use keyhole_sdk.Base.Dict.{lookup, insert}
use keyhole_sdk.Base.Json.{Json}
use keyhole_sdk.Base.Text.{◌<>◌, strip, is_within, is_prefix, before, after, without}
use keyhole_sdk.Base.Texts.{join, sorted_texts}
use keyhole_sdk.Dispatch.Models.{
  RunTypeStatus, valid, invalid, unknown, ambiguous, discovery_unavailable, RunTypeCheckResult,
}
use keyhole_sdk.Dispatch.Names.{canonical_run_types}
use keyhole_sdk.Dispatch.Operations.{
  OperationObject, AmbiguousAlias, Index, Advertised, resolve, from_capabilities,
}

abbrev pub Mistakes : Type 0
Mistakes = List (String × List String)

pub record RunTypeValidator : Type 0 where
  pub canonical : List String
  pub mistakes : Mistakes
  pub discovered_registry : Option Index
  pub discovery_attempted : Bool
  pub discovery_ambiguous_reason : String
  pub discovery_is_unavailable : Bool

-- What the validator reads of a capability answer.
pub record Capabilities : Type 0 where
  pub implemented_surfaces : List String
  pub run_type_mistakes : List String
  pub operations : List Advertised

abbrev pub validator_of : Mistakes → RunTypeValidator
validator_of known = record {
  canonical = canonical_run_types;
  mistakes = known;
  discovered_registry = none;
  discovery_attempted = false;
  discovery_ambiguous_reason = "";
  discovery_is_unavailable = false;
}

-- The set with one more member.
abbrev pub add_text : String → List String → List String
add_text s set = if elem s set then set else set ++ s ∷ []

-- `add_canonical`
abbrev pub add_canonical : String → RunTypeValidator → RunTypeValidator
add_canonical run_type v = record v { canonical = add_text run_type (v.canonical) }

unfoldable pub note_mistake : String → String → List String → Mistakes → Mistakes
unfolding lookup insert
note_mistake bad good canonical mistakes =
    let listed = or_default (lookup bad mistakes) [] in
    if not (truthy bad && truthy good && not (elem bad canonical))
    then mistakes
    else insert bad (if elem good listed then listed else listed ++ good ∷ []) mistakes

-- `item[item.index("(") + 1 : item.index(")")]`
unfoldable pub bracketed : String → String
unfolding before after is_within
bracketed item = if is_within ")" (before "(" item) then "" else before ")" (after "(" 1 item)

unfoldable pub incorporate_mistake : String → List String → Mistakes → Mistakes
unfolding note_mistake bracketed before after without strip is_within
incorporate_mistake item canonical mistakes =
    if is_within "(" item && is_within ")" item
    then note_mistake (strip (before "(" item)) (strip (without "use " 3 zero (bracketed item)))
        canonical mistakes
    else if is_within "→" item
    then note_mistake (strip (before "→" item)) (strip (after "→" 1 item)) canonical mistakes
    else if is_within "->" item
    then note_mistake (strip (before "->" item)) (strip (after "->" 2 item)) canonical mistakes
    else if is_within "=>" item
    then note_mistake (strip (before "=>" item)) (strip (after "=>" 2 item)) canonical mistakes
    else mistakes

unfoldable pub incorporate_mistakes : List String → List String → Mistakes → Mistakes
unfolding incorporate_mistake
incorporate_mistakes [] canonical mistakes = mistakes
incorporate_mistakes (item ∷ items) canonical mistakes =
    incorporate_mistakes items canonical (incorporate_mistake item canonical mistakes)

abbrev pub add_surfaces : List String → List String → List String
add_surfaces [] canonical = canonical
add_surfaces (s ∷ ss) canonical =
    add_surfaces ss (if truthy s then add_text s canonical else canonical)

-- The shared lists of a table, as the copy that was appended to leaves them.
unfoldable pub after_sharing : Mistakes → Mistakes → Mistakes
unfolding lookup
after_sharing [] copy = []
after_sharing ((k, known) ∷ table) copy =
    (k, or_default (lookup k copy) known) ∷ after_sharing table copy

-- The message of the error.
abbrev pub ambiguity : (String → String) → AmbiguousAlias → String
ambiguity repr e =
    "Identifier "
    <> (repr (e.identifier)
        <> (" is advertised by both "
            <> (repr (e.existing) <> (" and " <> (repr (e.other) <> ".")))))

abbrev pub registry_of : AmbiguousAlias ⊎ Index → Option Index
registry_of (inl e) = none
registry_of (inr index) = some index

abbrev pub ambiguity_of : (String → String) → AmbiguousAlias ⊎ Index → String
ambiguity_of repr (inl e) = ambiguity repr e
ambiguity_of repr (inr index) = ""

-- `RunTypeValidator.from_capabilities`, with what becomes of the table.
unfoldable pub validator_from :
    (Json → String) → (String → String) → Mistakes → Capabilities → Mistakes × RunTypeValidator
unfolding incorporate_mistakes after_sharing from_capabilities
validator_from show repr known capabilities =
    let canonical = add_surfaces (capabilities.implemented_surfaces) canonical_run_types in
    let mistakes = incorporate_mistakes (capabilities.run_type_mistakes) canonical known in
    let built = from_capabilities show (capabilities.operations) in
    (
      after_sharing known mistakes,
      record {
        canonical = canonical;
        mistakes = mistakes;
        discovered_registry = registry_of built;
        discovery_attempted = true;
        discovery_ambiguous_reason = ambiguity_of repr built;
        discovery_is_unavailable = false;
      },
    )

-- The first names that are not seen, until `room` more are found.
unfoldable pub first_distinct : List String → ℕ → List String → List String
first_distinct seen zero cs = []
first_distinct seen (suc room) [] = []
first_distinct seen (suc room) (c ∷ cs) = elim (elem c seen) [
  | true ↦ first_distinct seen (suc room) cs
  | false ↦ c ∷ first_distinct (c ∷ seen) room cs
]

abbrev pub mistake_reason : String → List String → String
mistake_reason run_type (s ∷ []) =
    "'" <> (run_type <> ("' is not canonical. Use '" <> (s <> "' instead.")))
mistake_reason run_type suggestions =
    "'" <> (run_type <> ("' is not canonical. Consider: " <> (join ", " suggestions <> ".")))

abbrev pub close_reason : String → List String → String
close_reason run_type close =
    "'"
    <> (run_type <> ("' is not a canonical run type. Did you mean: " <> (join ", " close <> "?")))

abbrev pub refused : String → RunTypeStatus → List String → String → String → RunTypeCheckResult
refused run_type status suggestions reason supplied = record {
  run_type = run_type;
  status = status;
  suggestions = suggestions;
  reason = reason;
  source = "";
  supplied_identifier = supplied;
  canonical_run_type = "";
  operation_name = "";
}

abbrev pub recognised : String → String → String → String → String → RunTypeCheckResult
recognised run_type reason source supplied name = record {
  run_type = run_type;
  status = valid;
  suggestions = [];
  reason = reason;
  source = source;
  supplied_identifier = supplied;
  canonical_run_type = run_type;
  operation_name = name;
}

module _ (lower : String → String) where
  -- The names of the family of the run type.
  abbrev pub is_close : String → String → Bool
  is_close run_type canonical =
      is_prefix (before "." run_type <> ".") canonical
      || is_prefix (before "." canonical <> ".") run_type

  unfoldable pub close_names : String → List String → List String
  unfolding before
  close_names run_type [] = []
  close_names run_type (c ∷ cs) =
      let rest = close_names run_type cs in if is_close run_type (lower c) then c ∷ rest else rest

  -- `_find_close_matches`
  unfoldable pub find_close_matches : List String → String → List String
  unfolding close_names first_distinct sorted_texts
  find_close_matches canonical run_type =
      first_distinct [] 3 (close_names (lower run_type) (sorted_texts canonical))
