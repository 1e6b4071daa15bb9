-- ===== src/Dispatch/Preflight/Static.antt =====
-- dispatch/*.py: the checks without a capability answer, by the two tables.
use keyhole_sdk.Base.{
  ◌≡◌, refl, sym, ap, ◌∙◌, String, Bool, true, false, ◌&&◌, ◌||◌, Option, List, [], ◌∷◌, elem,
  truthy, str_eq, arith, Bool-cases, inl, inr, eq_iff,
}
use keyhole_sdk.Base.Dict.{lookup}
use keyhole_sdk.Base.Json.{Fields}
use keyhole_sdk.Base.Text.{strip}
use keyhole_sdk.Dispatch.Models.{
  RunTypeStatus, valid, invalid, unknown, ambiguous, discovery_unavailable, RunTypeCheckResult,
  is_valid,
}
use keyhole_sdk.Dispatch.Names.{canonical_run_types}
use keyhole_sdk.Dispatch.Operations.{resolve}
use keyhole_sdk.Dispatch.Validator.{Mistakes, validator_of}
use keyhole_sdk.Dispatch.Validator.Check.{check}
use keyhole_sdk.Dispatch.Validator.Verdict.{check-is_valid}
use keyhole_sdk.Dispatch.Schema.{static_helper, get_hint}
use keyhole_sdk.Dispatch.Preflight.{DispatchPreflight, by_status, preflight}
use keyhole_sdk.Dispatch.Preflight.Gate.{Decides, is_complete, preflight-Decides}

-- The parameters of every name are known.
abbrev all_known : List String → Bool
all_known [] = true
all_known (k ∷ ks) = (get_hint static_helper k).available && all_known ks

canonical-known : all_known canonical_run_types ≡ true
unfolding get_hint lookup resolve
canonical-known = refl

and_left : (a b : Bool) → (a && b) ≡ true → a ≡ true
and_left a b h = ground arith

and_right : (a b : Bool) → (a && b) ≡ true → b ≡ true
and_right a b h = ground arith

in_rest : (a b : Bool) → a ≡ false → (a || b) ≡ true → b ≡ true
in_rest a b e h = ground arith

known_member :
    (run_type : String) (ks : List String)
    → all_known ks ≡ true
    → elem run_type ks ≡ true
    → (get_hint static_helper run_type).available ≡ true
known_member run_type [] h m = ground arith
known_member run_type (k ∷ ks) h m = elim (Bool-cases (str_eq run_type k)) [
  | inl e ↦
      let same : run_type ≡ k = ground (arith, eq_iff run_type k) in
      ap (λ s. (get_hint static_helper s).available) same ∙ and_left _ _ h
  | inr e ↦
      known_member run_type ks (and_right _ _ h)
        (in_rest (str_eq run_type k) (elem run_type ks) e m)
]

refused-Decides :
    (lower : String → String) (p : DispatchPreflight) (run_type : String) (params : Option Fields)
    → is_valid (check lower (p.validator) run_type) ≡ false
    → Decides (preflight lower p run_type params) false
unfolding preflight
refused-Decides lower p run_type params h =
    let r = check lower (p.validator) run_type in by_cases r (r.status) h
  where
    by_cases :
        (r : RunTypeCheckResult) (s : RunTypeStatus)
        → is_valid (record r { status = s }) ≡ false
        → Decides (by_status lower p run_type params r s) false
    by_cases r invalid h = (refl, refl)
    by_cases r unknown h = (refl, refl)
    by_cases r ambiguous h = (refl, refl)
    by_cases r discovery_unavailable h = (refl, refl)
    by_cases r valid h = ground arith

-- The checker that is made with no capability answer.
abbrev pub static_preflight : Mistakes → DispatchPreflight
static_preflight known = record { validator = validator_of known; schema = static_helper }

check-static :
    (lower : String → String) (known : Mistakes) (run_type : String)
    → strip run_type ≡ run_type
    → is_valid (check lower (validator_of known) run_type)
      ≡ (truthy run_type && elem run_type canonical_run_types)
check-static lower known run_type e =
    check-is_valid lower (validator_of known) run_type
    ∙ ap (λ s. truthy s && elem s canonical_run_types) e

-- With no capability answer, a run type that has no outer spaces may be dispatched exactly when it is
-- one of the canonical run types and no required parameter of its schema is left out of the
-- parameters that are given, and it then passes without a warning.
pub preflight-static :
    (lower : String → String) (known : Mistakes) (run_type : String) (params : Option Fields)
    → strip run_type ≡ run_type
    → Decides (preflight lower (static_preflight known) run_type params) (
        truthy run_type
        && elem run_type canonical_run_types
        && is_complete (get_hint static_helper run_type) params)
preflight-static lower known run_type params e =
    let accepted = check-static lower known run_type e in
    elim (Bool-cases (truthy run_type && elem run_type canonical_run_types)) [
      | inl a ↦
          let there = known_member run_type canonical_run_types canonical-known (and_right _ _ a) in
          let b = is_complete (get_hint static_helper run_type) params in
          coe 0 1
            (i.
              Decides (preflight lower (static_preflight known) run_type params) (accepted i && b))
            (preflight-Decides lower (static_preflight known) run_type params there)
      | inr a ↦
          let b = is_complete (get_hint static_helper run_type) params in
          coe 0 1
            (i. Decides (preflight lower (static_preflight known) run_type params) (sym a i && b))
            (refused-Decides lower (static_preflight known) run_type params (accepted ∙ a))
    ]
