-- ===== src/Dispatch/Validator/Grounded.antt =====
-- dispatch/validator.py, discovery/operations.py: what a validator that is made from a capability
-- answer accepts.
use keyhole_sdk.Base.{
  ◌≡◌, refl, sym, ap, ◌∙◌, String, Bool, true, false, ◌⊎◌, inl, inr, Option, none, some, List, elem,
  truthy, arith, Bool-cases,
}
use keyhole_sdk.Base.Dict.{lookup}
use keyhole_sdk.Base.Json.{Json}
use keyhole_sdk.Base.Text.{strip}
use keyhole_sdk.Base.Strip.{strip-strip}
use keyhole_sdk.Dispatch.Models.{RunTypeCheckResult, is_valid}
use keyhole_sdk.Dispatch.Operations.{
  OperationObject, AmbiguousAlias, Index, objects_of, from_capabilities, build_indexes, resolve,
}
use keyhole_sdk.Dispatch.Operations.Index.{In, Advertises}
use keyhole_sdk.Dispatch.Operations.Resolution.{build_indexes-Advertises}
use keyhole_sdk.Dispatch.Validator.{
  RunTypeValidator, Capabilities, Mistakes, validator_from, registry_of,
}
use keyhole_sdk.Dispatch.Validator.Check.{resolved_in, by_table, by_registry, check}
use keyhole_sdk.Dispatch.Validator.Verdict.{check-blank, check-step, by_registry-valid}

absurd_bool : {A : Type 0} {b : Bool} → b ≡ false → b ≡ true → A
absurd_bool f t = ground arith

-- A listed operation that advertises the identifier.
abbrev pub Source : List OperationObject → String → OperationObject → Type 0
Source os id o = In o os × Advertises o id

resolved_in-Source :
    (os : List OperationObject) (built : AmbiguousAlias ⊎ Index) (id : String) (o : OperationObject)
    → build_indexes os ≡ built
    → resolved_in (registry_of built) (strip id) ≡ some o
    → Source os (strip id) o
unfolding resolve
resolved_in-Source os (inl e) id o h k = ground arith
resolved_in-Source os (inr index) id o h k =
    build_indexes-Advertises os index (strip id) o h
      (ap (λ s. lookup s index) (sym (strip-strip id)) ∙ k)

-- The run type is canonical, and is the answer; or it is an identifier of an operation that the
-- server advertises, and the answer is the canonical run type of that operation.
abbrev pub IsFounded :
    RunTypeValidator → List OperationObject → String → RunTypeCheckResult → Type 0
IsFounded v os run_type r =
    ((elem run_type (v.canonical) ≡ true) × (r.canonical_run_type ≡ run_type))
    ⊎ ((o : OperationObject) × Source os run_type o
        × (r.canonical_run_type ≡ o.definition.canonical_run_type))

by_table-canonical :
    (lower : String → String) (v : RunTypeValidator) (run_type : String)
    → elem run_type (v.canonical) ≡ true
    → (by_table lower v run_type).canonical_run_type ≡ run_type
by_table-canonical lower v run_type e = simp e refl

by_registry-IsFounded :
    (lower : String → String) (v : RunTypeValidator) (os : List OperationObject) (id : String)
    (found : Option OperationObject)
    → ((o : OperationObject) → found ≡ some o → Source os id o)
    → is_valid (by_registry lower v id found) ≡ true
    → IsFounded v os id (by_registry lower v id found)
by_registry-IsFounded lower v os id (some o) f h = inr (o, f o refl, refl)
by_registry-IsFounded lower v os id none f h =
    let e : elem id (v.canonical) ≡ true = sym (by_registry-valid lower v id none) ∙ h in
    inl (e, by_table-canonical lower v id e)

-- A validator that is made from a capability answer accepts a run type only if, without outer spaces,
-- it is canonical, and is then the answer, or an identifier of an operation that the answer lists,
-- whose canonical run type is then the answer.
pub check-IsFounded :
    (lower repr : String → String) (show : Json → String) (known : Mistakes)
    (capabilities : Capabilities) (run_type : String)
    → let v = (validator_from show repr known capabilities).1 in
      is_valid (check lower v run_type) ≡ true
      → IsFounded v
          (objects_of show (capabilities.operations))
          (strip run_type)
          (check lower v run_type)
unfolding validator_from from_capabilities
check-IsFounded lower repr show known capabilities run_type h =
    let v = (validator_from show repr known capabilities).1 in
    let os = objects_of show (capabilities.operations) in
    elim (Bool-cases (truthy (strip run_type))) [
      | inr e ↦ absurd_bool ((check-blank lower v run_type e).0) h
      | inl e ↦
          let step = check-step lower v run_type e in
          coe 0 1 (i. IsFounded v os (strip run_type) (sym step i)) (
            by_registry-IsFounded lower v os (strip run_type)
              (resolved_in (v.discovered_registry) (strip run_type))
              (λ o k. resolved_in-Source os (build_indexes os) run_type o refl k)
              (ap is_valid (sym step) ∙ h))
    ]
