-- ===== src/Validation.antt =====
-- validation/compatibility.py: the comparison of what a repository produces and what it consumes.
-- `str` of a number, and the decimal value of a character, are parameters.
pub mod Exact
pub mod Versions
mod Tests
use Prim.Native.Char.{code}
use keyhole_sdk.Base.{
  ℕ, zero, suc, ◌+◌, ◌-◌, ◌*◌, String, Bool, true, false, not, ◌&&◌, Option, none, some, List, [],
  ◌∷◌, ◌++◌, elem, is_some, map, ◌==◌, if◌then◌else◌,
}
use keyhole_sdk.Base.Dict.{lookup, insert}
use keyhole_sdk.Base.Json.{Json, null, arr, obj, Items, nil, cons, Fields, get_field, get_json}
use keyhole_sdk.Base.Text.{◌<>◌, is_prefix, drop_chars}

pub record ValidationIssue : Type 0 where
  pub file : String
  pub location : String
  pub reason : String
  pub repair : List String

-- A name with its version is read with the decimal value of a code point, none where `\d` does not match.
module _ (digit : ℕ → Option ℕ) where
  abbrev is_empty_text : String → Bool
  is_empty_text String.[] = true
  is_empty_text (String.◌∷◌ c s) = false

  -- The number of a text of digits, behind the digits of `n`; the `$` also stands before a final newline.
  unfoldable pub number_of : ℕ → String → Option ℕ
  number_of n String.[] = some n
  number_of n (String.◌∷◌ c s) = elim (digit (code c)) [
    | some k ↦ number_of (10 * n + k) s
    | none ↦ if code c == 10 && is_empty_text s then some n else none
  ]

  -- The number of a text that starts with a digit.
  unfoldable pub digits_of : String → Option ℕ
  unfolding number_of
  digits_of String.[] = none
  digits_of (String.◌∷◌ c s) = elim (digit (code c)) [ some k ↦ number_of k s | none ↦ none ]

  -- The number of a text that is ".v" and a number.
  unfoldable pub version_of : String → Option ℕ
  unfolding digits_of drop_chars
  version_of s = if is_prefix ".v" s then digits_of (drop_chars 2 s) else none

  abbrev pub behind : String → Option (String × ℕ) → Option (String × ℕ)
  behind first none = none
  behind first (some (base, n)) = some (first <> base, n)

  abbrev pub or_behind : String → Option ℕ → Option (String × ℕ) → Option (String × ℕ)
  or_behind first (some n) rest = some (first, n)
  or_behind first none rest = behind first rest

  -- `_base_ver`: a base that is not empty and has no newline, and the number behind its ".v".
  unfoldable pub base_ver : String → Option (String × ℕ)
  unfolding version_of
  base_ver String.[] = none
  base_ver (String.◌∷◌ c s) =
      let rest = base_ver s in
      if code c == 10 then none else or_behind (String.◌∷◌ c String.[]) (version_of s) rest

-- The first of each key that is not seen.
unfoldable pub first_of_each : {A : Type 0} → List String → List (String × A) → List (String × A)
first_of_each seen [] = []
first_of_each seen ((k, a) ∷ xs) =
    let rest = first_of_each (if elem k seen then seen else k ∷ seen) xs in
    if elem k seen then rest else (k, a) ∷ rest

-- The consumed names that are produced too.
abbrev pub self_candidates : List String → List String → List (String × String)
self_candidates produces [] = []
self_candidates produces (cap ∷ caps) =
    let rest = self_candidates produces caps in
    if elem cap produces then (cap, cap) ∷ rest else rest

unfoldable pub self_dependencies : List String → List String → List (String × String)
unfolding first_of_each
self_dependencies produces consumed = first_of_each [] (self_candidates produces consumed)

-- The version that is produced of each base, the last one where there are several.
abbrev pub noted : Option (String × ℕ) → List (String × ℕ) → List (String × ℕ)
noted none bases = bases
noted (some (base, n)) bases = insert base n bases

-- What a conflict is reported with: the name, the version that is produced, and the one that is consumed.
pub record Conflict : Type 0 where
  pub capability : String
  pub produced : ℕ
  pub consumed : ℕ

abbrev pub against : String → String → ℕ → Option ℕ → Option (String × Conflict)
against cap base n none = none
against cap base n (some m) =
    if m == n then none else some (base, record { capability = cap; produced = m; consumed = n })

abbrev pub conflict_of :
    List (String × ℕ) → String → Option (String × ℕ) → Option (String × Conflict)
conflict_of bases cap none = none
conflict_of bases cap (some (base, n)) = against cap base n (lookup base bases)

abbrev pub or_none : {A : Type 0} → Option A → List A → List A
or_none none rest = rest
or_none (some a) rest = a ∷ rest

module _ (digit : ℕ → Option ℕ) where
  unfoldable pub produced_bases : List String → List (String × ℕ) → List (String × ℕ)
  unfolding base_ver insert
  produced_bases [] bases = bases
  produced_bases (cap ∷ caps) bases = produced_bases caps (noted (base_ver digit cap) bases)

  unfoldable pub conflict_candidates : List (String × ℕ) → List String → List (String × Conflict)
  unfolding base_ver lookup
  conflict_candidates bases [] = []
  conflict_candidates bases (cap ∷ caps) =
      or_none (conflict_of bases cap (base_ver digit cap)) (conflict_candidates bases caps)

  unfoldable pub version_conflicts : List String → List String → List (String × Conflict)
  unfolding first_of_each conflict_candidates produced_bases
  version_conflicts produces consumed =
      first_of_each [] (conflict_candidates (produced_bases produces []) consumed)

abbrev pub self_issue : String × String → ValidationIssue
self_issue (cap, _) = record {
  file = "dependencies.yaml";
  location = "";
  reason = "self_dependency_detected";
  repair =
      ("'" <> (cap <> "' appears in both 'produces' and dependencies."))
      ∷ "A repo should not declare itself as a dependency."
      ∷ "Remove this capability from dependencies.yaml."
      ∷ [];
}

module _ (digit : ℕ → Option ℕ) (show : ℕ → String) where
  abbrev pub conflict_issue : String × Conflict → ValidationIssue
  conflict_issue (base, c) = record {
    file = "dependencies.yaml";
    location = "";
    reason = "incompatible_major_version";
    repair =
        ("This repo produces '"
          <> (base
              <> (".v"
                  <> (show (c.produced)
                      <> ("' but consumes '"
                          <> (c.capability <> ("' (v" <> (show (c.consumed) <> ")."))))))))
        ∷ "If this cross-version dependency is intentional, add a compatibility_contracts declaration in governance_contract.yaml."
        ∷ "Otherwise align the version references across files."
        ∷ [];
  }

  abbrev pub shape_issue : String → List String → ValidationIssue
  shape_issue location repair = record {
    file = "governance_contract.yaml";
    location = location;
    reason = "compatibility_contract_invalid";
    repair = repair;
  }

  abbrev pub at_index : ℕ → String
  at_index n = "compatibility_contracts[" <> (show n <> "]")

  abbrev pub entry_issues : ℕ → Json → List ValidationIssue
  entry_issues n (obj d) =
      if is_some (get_field "capability" d)
      then []
      else shape_issue (at_index n <> ".capability") (
          ("Add a 'capability' field to " <> (at_index n <> "."))
          ∷ "Example: capability: payment.stripe.integration.v1"
          ∷ [])
        ∷ []
  entry_issues n _ =
      shape_issue (at_index n) (
        (at_index n <> " must be a mapping.")
        ∷ "Each entry needs at least a 'capability' key."
        ∷ [])
      ∷ []

  unfoldable pub entries_issues : ℕ → Items → List ValidationIssue
  unfolding get_field
  entries_issues n nil = []
  entries_issues n (cons v vs) = entry_issues n v ++ entries_issues (suc n) vs

  abbrev pub contract_issues : Json → List ValidationIssue
  contract_issues null = []
  contract_issues (arr vs) = entries_issues 0 vs
  contract_issues _ =
      shape_issue "compatibility_contracts" (
        "'compatibility_contracts' must be a YAML list of mappings."
        ∷ "Example:\n  compatibility_contracts:\n    - capability: payment.stripe.integration.v1\n      min_version: 1"
        ∷ [])
      ∷ []

  unfoldable pub validate_compatibility : List String → List String → Fields → List ValidationIssue
  unfolding entries_issues self_dependencies version_conflicts get_field
  validate_compatibility produces consumed gc_data =
      contract_issues (get_json "compatibility_contracts" gc_data)
      ++ (map self_issue (self_dependencies produces consumed)
          ++ map conflict_issue (version_conflicts digit produces consumed))
