-- ===== src/Dispatch/Validator/Verdict.antt =====
-- dispatch/validator.py: what a check accepts, and what it suggests.
use keyhole_sdk.Base.{
  ℕ, zero, suc, ◌≡◌, refl, sym, ◌∙◌, ◌≤◌, String, Bool, true, false, ◌&&◌, ◌||◌, inl, inr, Option,
  none, some, List, [], ◌∷◌, elem, length, All, is_some, truthy, arith, Bool-cases, eq_iff,
  if◌then◌else◌,
}
use keyhole_sdk.Base.Dict.{lookup}
use keyhole_sdk.Base.Text.{strip}
use keyhole_sdk.Base.Texts.{sorted_texts, elem-sorted_texts}
use keyhole_sdk.Dispatch.Models.{is_valid}
use keyhole_sdk.Dispatch.Operations.{OperationObject}
use keyhole_sdk.Dispatch.Validator.{
  RunTypeValidator, first_distinct, close_names, is_close, find_close_matches,
}
use keyhole_sdk.Dispatch.Validator.Check.{
  resolved_in, unrecognised, by_family, by_mistake, by_registry, check,
}

first_distinct-bounded :
    (room : ℕ) (seen cs : List String) → length (first_distinct seen room cs) ≤ room
unfolding first_distinct
first_distinct-bounded zero seen cs = omega arith
first_distinct-bounded (suc n) seen [] = omega arith
first_distinct-bounded (suc n) seen (c ∷ cs) =
    either (elem c seen) (first_distinct-bounded (suc n) seen cs)
      (first_distinct-bounded n (c ∷ seen) cs)
  where
    either :
        (b : Bool)
        → length (first_distinct seen (suc n) cs) ≤ suc n
        → length (first_distinct (c ∷ seen) n cs) ≤ n
        → length (elim b [
          | true ↦ first_distinct seen (suc n) cs
          | false ↦ c ∷ first_distinct (c ∷ seen) n cs
        ])
          ≤ suc n
    either true h k = h
    either false h k = omega arith

-- Every member of the list is a member of the set.
abbrev pub AllIn : List String → List String → Type 0
AllIn set xs = All (λ x. elem x set ≡ true) xs

first_distinct-AllIn :
    (set : List String) (room : ℕ) (seen cs : List String)
    → AllIn set cs
    → AllIn set (first_distinct seen room cs)
unfolding first_distinct
first_distinct-AllIn set zero seen cs h = tt
first_distinct-AllIn set (suc n) seen [] h = tt
first_distinct-AllIn set (suc n) seen (c ∷ cs) (a, h) =
    either (elem c seen) (first_distinct-AllIn set (suc n) seen cs h)
      (first_distinct-AllIn set n (c ∷ seen) cs h)
  where
    either :
        (b : Bool)
        → AllIn set (first_distinct seen (suc n) cs)
        → AllIn set (first_distinct (c ∷ seen) n cs)
        → AllIn set (elim b [
          | true ↦ first_distinct seen (suc n) cs
          | false ↦ c ∷ first_distinct (c ∷ seen) n cs
        ])
    either true k l = k
    either false k l = (a, l)

AllIn-weaken : (set xs : List String) (y : String) → AllIn set xs → AllIn (y ∷ set) xs
AllIn-weaken set [] y h = tt
AllIn-weaken set (x ∷ xs) y (a, h) = (ground arith, AllIn-weaken set xs y h)

AllIn-self : (xs : List String) → AllIn xs xs
AllIn-self [] = tt
AllIn-self (x ∷ xs) = (ground (arith, eq_iff x x), AllIn-weaken xs xs x (AllIn-self xs))

AllIn-sorted : (set xs : List String) → AllIn (sorted_texts set) xs → AllIn set xs
AllIn-sorted set [] h = tt
AllIn-sorted set (x ∷ xs) (a, h) = (sym (elem-sorted_texts x set) ∙ a, AllIn-sorted set xs h)

close_names-AllIn :
    (lower : String → String) (set : List String) (run_type : String) (cs : List String)
    → AllIn set cs
    → AllIn set (close_names lower run_type cs)
unfolding close_names
close_names-AllIn lower set run_type [] h = tt
close_names-AllIn lower set run_type (c ∷ cs) (a, h) =
    kept (is_close lower run_type (lower c)) (close_names lower run_type cs)
      (close_names-AllIn lower set run_type cs h)
  where
    kept :
        (b : Bool) (rest : List String) → AllIn set rest → AllIn set (if b then c ∷ rest else rest)
    kept true rest k = (a, k)
    kept false rest k = k

-- At most three suggestions, all of them canonical.
abbrev pub IsGrounded : List String → List String → Type 0
IsGrounded canonical suggestions = (length suggestions ≤ 3) × AllIn canonical suggestions

find_close_matches-IsGrounded :
    (lower : String → String) (canonical : List String) (run_type : String)
    → IsGrounded canonical (find_close_matches lower canonical run_type)
unfolding find_close_matches
find_close_matches-IsGrounded lower canonical run_type =
    let names = close_names lower (lower run_type) (sorted_texts canonical) in
    (
      first_distinct-bounded 3 [] names,
      AllIn-sorted canonical (first_distinct [] 3 names) (
          first_distinct-AllIn (sorted_texts canonical) 3 [] names (
            close_names-AllIn lower (sorted_texts canonical) (lower run_type)
              (sorted_texts canonical) (AllIn-self (sorted_texts canonical)))),
    )

unrecognised-refused :
    (v : RunTypeValidator) (run_type : String)
    → (is_valid (unrecognised v run_type) ≡ false) × ((unrecognised v run_type).suggestions ≡ [])
unrecognised-refused v run_type = elim (Bool-cases (truthy (v.discovery_ambiguous_reason))) [
  | inl e ↦ (simp e refl, simp e refl)
  | inr e ↦ elim (Bool-cases (v.discovery_is_unavailable)) [
    | inl d ↦ (simp (e, d) refl, simp (e, d) refl)
    | inr d ↦ (simp (e, d) refl, simp (e, d) refl)
  ]
]

nothing-IsGrounded : (canonical none_of : List String) → none_of ≡ [] → IsGrounded canonical none_of
nothing-IsGrounded canonical [] e = (omega arith, tt)
nothing-IsGrounded canonical (x ∷ xs) e = ground arith

by_mistake-IsGrounded :
    (lower : String → String) (v : RunTypeValidator) (run_type : String) (o : Option (List String))
    → o ≡ none
    → IsGrounded (v.canonical) ((by_mistake lower v run_type o).suggestions)
by_mistake-IsGrounded lower v run_type (some s) h = ground arith
by_mistake-IsGrounded lower v run_type none h =
    family (find_close_matches lower (v.canonical) run_type)
      (find_close_matches-IsGrounded lower (v.canonical) run_type)
  where
    family :
        (close : List String)
        → IsGrounded (v.canonical) close
        → IsGrounded (v.canonical) ((by_family lower v run_type close).suggestions)
    family (c ∷ cs) g = g
    family [] g =
        nothing-IsGrounded (v.canonical) ((unrecognised v run_type).suggestions)
          ((unrecognised-refused v run_type).1)

pub check-blank :
    (lower : String → String) (v : RunTypeValidator) (run_type : String)
    → truthy (strip run_type) ≡ false
    → (is_valid (check lower v run_type) ≡ false) × ((check lower v run_type).suggestions ≡ [])
unfolding check
check-blank lower v run_type e = (simp e refl, simp e refl)

pub check-step :
    (lower : String → String) (v : RunTypeValidator) (run_type : String)
    → truthy (strip run_type) ≡ true
    → check lower v run_type
      ≡ by_registry lower v (strip run_type) (resolved_in (v.discovered_registry) (strip run_type))
unfolding check
check-step lower v run_type e = simp e refl

by_registry-IsGrounded :
    (lower : String → String) (v : RunTypeValidator) (run_type : String)
    (o : Option OperationObject)
    → lookup run_type (v.mistakes) ≡ none
    → IsGrounded (v.canonical) ((by_registry lower v run_type o).suggestions)
by_registry-IsGrounded lower v run_type (some o) h = (omega arith, tt)
by_registry-IsGrounded lower v run_type none h = elim (Bool-cases (elem run_type (v.canonical))) [
  | inl e ↦ simp e (omega arith, tt)
  | inr e ↦ simp e (by_mistake-IsGrounded lower v run_type (lookup run_type (v.mistakes)) h)
]

-- A check suggests at most three names, all canonical, where the run type is not a known mistake.
pub check-IsGrounded :
    (lower : String → String) (v : RunTypeValidator) (run_type : String)
    → lookup (strip run_type) (v.mistakes) ≡ none
    → IsGrounded (v.canonical) ((check lower v run_type).suggestions)
check-IsGrounded lower v run_type h = elim (Bool-cases (truthy (strip run_type))) [
  | inr e ↦
      nothing-IsGrounded (v.canonical) ((check lower v run_type).suggestions)
        ((check-blank lower v run_type e).1)
  | inl e ↦ rw (check-step lower v run_type e) (
      by_registry-IsGrounded lower v (strip run_type)
        (resolved_in (v.discovered_registry) (strip run_type)) h)
]

by_mistake-refused :
    (lower : String → String) (v : RunTypeValidator) (run_type : String) (o : Option (List String))
    → is_valid (by_mistake lower v run_type o) ≡ false
by_mistake-refused lower v run_type (some s) = refl
by_mistake-refused lower v run_type none = family (find_close_matches lower (v.canonical) run_type)
  where
    family : (close : List String) → is_valid (by_family lower v run_type close) ≡ false
    family (c ∷ cs) = refl
    family [] = (unrecognised-refused v run_type).0

pub by_registry-valid :
    (lower : String → String) (v : RunTypeValidator) (run_type : String)
    (o : Option OperationObject)
    → is_valid (by_registry lower v run_type o) ≡ (is_some o || elem run_type (v.canonical))
by_registry-valid lower v run_type (some o) = refl
by_registry-valid lower v run_type none = elim (Bool-cases (elem run_type (v.canonical))) [
  | inl e ↦ simp e refl
  | inr e ↦ simp e (by_mistake-refused lower v run_type (lookup run_type (v.mistakes)))
]

-- A check accepts exactly the run types that, without outer spaces, are not empty and are resolved by
-- the registry or canonical.
pub check-is_valid :
    (lower : String → String) (v : RunTypeValidator) (run_type : String)
    → is_valid (check lower v run_type) ≡ (
        truthy (strip run_type)
        && (is_some (resolved_in (v.discovered_registry) (strip run_type))
            || elem (strip run_type) (v.canonical)))
check-is_valid lower v run_type = elim (Bool-cases (truthy (strip run_type))) [
  | inr e ↦ simp e ((check-blank lower v run_type e).0)
  | inl e ↦ rw (check-step lower v run_type e) (
      simp e (
        by_registry-valid lower v (strip run_type)
          (resolved_in (v.discovered_registry) (strip run_type))))
]
