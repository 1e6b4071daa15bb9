-- ===== src/Validation/Tests.antt =====
-- Repositories whose declarations are compared.
use keyhole_sdk.Base.Codes.{is_digit}
use keyhole_sdk.Base.{
  ℕ, ◌-◌, Option, none, if◌then◌else◌, ◌≡◌, refl, String, true, ◌&&◌, List, [], ◌∷◌, elem, some,
}
use keyhole_sdk.Base.Dict.{lookup, insert}
use keyhole_sdk.Base.Text.{drop_chars}
use keyhole_sdk.Validation.{
  base_ver, version_of, digits_of, number_of, first_of_each, self_dependencies, conflict_candidates,
  produced_bases, version_conflicts,
}
use keyhole_sdk.Base.Text.{◌<>◌}
use keyhole_sdk.Validation.Versions.{base_ver-reads}
use keyhole_sdk.Validation.Exact.{
  keys, is_distinct, any_differs, last_version, version_conflicts-exact,
}

-- The digits of ASCII.
abbrev digit : ℕ → Option ℕ
digit c = if is_digit c then some (c - 48) else none

read_version : base_ver digit "pay.stripe.v12" ≡ some ("pay.stripe", 12)
unfolding base_ver version_of digits_of number_of drop_chars
read_version = refl

one_conflict :
    keys (version_conflicts digit ("a.v1" ∷ "b.v2" ∷ []) ("a.v2" ∷ "a.v3" ∷ "b.v2" ∷ [])) ≡ "a" ∷ []
unfolding version_conflicts first_of_each conflict_candidates produced_bases base_ver version_of
    digits_of number_of drop_chars lookup insert
one_conflict = refl

-- Where two versions are produced, the earlier one is not compared.
produced_twice : keys (version_conflicts digit ("a.v1" ∷ "a.v2" ∷ []) ("a.v1" ∷ [])) ≡ "a" ∷ []
unfolding version_conflicts first_of_each conflict_candidates produced_bases base_ver version_of
    digits_of number_of drop_chars lookup insert
produced_twice = refl

version_conflicts-exact_example :
    let produces : List String = "a.v1" ∷ [] in
    let consumed : List String = "a.v1" ∷ "a.v2" ∷ [] in
    (elem "a" (keys (self_dependencies produces consumed))
      ≡ (elem "a" consumed && elem "a" produces))
    × (elem "a" (keys (version_conflicts digit produces consumed))
        ≡ any_differs digit (last_version digit "a" produces) "a" consumed)
    × (is_distinct (keys (self_dependencies produces consumed)) ≡ true)
    × (is_distinct (keys (version_conflicts digit produces consumed)) ≡ true)
version_conflicts-exact_example =
    version_conflicts-exact digit ("a.v1" ∷ []) ("a.v1" ∷ "a.v2" ∷ []) "a"

-- The `$` of the pattern stands before a final newline too; a newline in the base is no match.
newline_version : (base_ver digit "a.v1\n" ≡ some ("a", 1)) × (base_ver digit "a\nb.v1" ≡ none)
unfolding base_ver version_of digits_of number_of drop_chars
newline_version = (refl, refl)

base_ver-reads_example : base_ver digit ("pay.stripe" <> (".v" <> "12")) ≡ some ("pay.stripe", 12)
base_ver-reads_example =
    base_ver-reads digit "pay.stripe" "12" 1 (2 ∷ []) refl refl refl (refl, (refl, tt))
