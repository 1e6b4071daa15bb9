-- ===== src/Negotiation/RepairSteps.antt =====
-- negotiation/evaluator.py: the steps that `_collect_repair` gathers.
use keyhole_sdk.Base.{
  ◌≡◌, refl, String, Bool, true, false, ◌||◌, List, [], ◌∷◌, ◌++◌, arith, elem, if◌then◌else◌,
  Bool-cases, inl, inr, eq_iff, str_eq,
}
use keyhole_sdk.Negotiation.Repair.{map_negotiation_repair}
use keyhole_sdk.Negotiation.Commands.{add_steps, repair_of, collect_repair}

-- No text stands twice in the list.
abbrev pub IsUnique : List String → Type 0
IsUnique [] = Unit
IsUnique (x ∷ xs) = (elem x xs ≡ false) × IsUnique xs

-- Every text of the first list is in the second.
abbrev pub Within : List String → List String → Type 0
Within [] ys = Unit
Within (x ∷ xs) ys = (elem x ys ≡ true) × Within xs ys

elem-snoc : (x y : String) (xs : List String) → elem x (xs ++ y ∷ []) ≡ (elem x xs || str_eq x y)
elem-snoc x y [] = ground arith
elem-snoc x y (z ∷ xs) = ground (arith, elem-snoc x y xs)

IsUnique-snoc :
    (y : String) (xs : List String) → IsUnique xs → elem y xs ≡ false → IsUnique (xs ++ y ∷ [])
IsUnique-snoc y [] h e = (refl, tt)
IsUnique-snoc y (x ∷ xs) (a, h) e = (
  ground (arith, elem-snoc x y xs, a, e, eq_iff x y, eq_iff y x),
  IsUnique-snoc y xs h (ground (arith, e)),
)

-- The list with a step that is added unless it is there.
abbrev with_step : String → List String → List String
with_step s xs = if elem s xs then xs else xs ++ s ∷ []

with_step-IsUnique : (s : String) (xs : List String) → IsUnique xs → IsUnique (with_step s xs)
with_step-IsUnique s xs h = elim (Bool-cases (elem s xs)) [
  | inl e ↦ rw e h
  | inr e ↦ rw e (IsUnique-snoc s xs h e)
]

with_step-keeps :
    (x s : String) (xs : List String) → elem x xs ≡ true → elem x (with_step s xs) ≡ true
with_step-keeps x s xs h = ground (arith, elem-snoc x s xs, h)

with_step-there : (s : String) (xs : List String) → elem s (with_step s xs) ≡ true
with_step-there s xs = ground (arith, elem-snoc s s xs, eq_iff s s)

add_steps-IsUnique : (xs ys : List String) → IsUnique xs → IsUnique (add_steps xs ys)
unfolding add_steps
add_steps-IsUnique xs [] h = h
add_steps-IsUnique xs (y ∷ ys) h =
    add_steps-IsUnique (with_step y xs) ys (with_step-IsUnique y xs h)

add_steps-keeps :
    (x : String) (xs ys : List String) → elem x xs ≡ true → elem x (add_steps xs ys) ≡ true
unfolding add_steps
add_steps-keeps x xs [] h = h
add_steps-keeps x xs (y ∷ ys) h = add_steps-keeps x (with_step y xs) ys (with_step-keeps x y xs h)

add_steps-adds : (xs ys : List String) → Within ys (add_steps xs ys)
unfolding add_steps
add_steps-adds xs [] = tt
add_steps-adds xs (y ∷ ys) = (
  add_steps-keeps y (with_step y xs) ys (with_step-there y xs),
  add_steps-adds (with_step y xs) ys,
)

repair_of-IsUnique : (xs surfaces : List String) → IsUnique xs → IsUnique (repair_of xs surfaces)
unfolding repair_of
repair_of-IsUnique xs [] h = h
repair_of-IsUnique xs (s ∷ surfaces) h =
    repair_of-IsUnique (add_steps xs (map_negotiation_repair s)) surfaces
      (add_steps-IsUnique xs (map_negotiation_repair s) h)

repair_of-keeps :
    (x : String) (xs surfaces : List String)
    → elem x xs ≡ true
    → elem x (repair_of xs surfaces) ≡ true
unfolding repair_of
repair_of-keeps x xs [] h = h
repair_of-keeps x xs (s ∷ surfaces) h =
    repair_of-keeps x (add_steps xs (map_negotiation_repair s)) surfaces
      (add_steps-keeps x xs (map_negotiation_repair s) h)

Within-mono :
    (xs ys zs : List String)
    → Within xs ys
    → ((x : String) → elem x ys ≡ true → elem x zs ≡ true)
    → Within xs zs
Within-mono [] ys zs h f = tt
Within-mono (x ∷ xs) ys zs (a, h) f = (f x a, Within-mono xs ys zs h f)

-- The steps of every surface are in the list.
abbrev pub Covers : List String → List String → Type 0
Covers [] zs = Unit
Covers (s ∷ surfaces) zs = Within (map_negotiation_repair s) zs × Covers surfaces zs

repair_of-Covers :
    (xs surfaces zs : List String)
    → ((x : String) → elem x (repair_of xs surfaces) ≡ true → elem x zs ≡ true)
    → Covers surfaces zs
unfolding repair_of
repair_of-Covers xs [] zs f = tt
repair_of-Covers xs (s ∷ surfaces) zs f =
    let ys = add_steps xs (map_negotiation_repair s) in
    (
      Within-mono (map_negotiation_repair s) ys zs (add_steps-adds xs (map_negotiation_repair s))
          (λ x e. f x (repair_of-keeps x ys surfaces e)),
      repair_of-Covers ys surfaces zs f,
    )

-- The repair of a command repeats no step, and it has every step of every missing surface and the
-- steps of its verdict.
collect_repair_complete :
    (surfaces : List String) (command_blocked : Bool)
    → IsUnique (collect_repair surfaces command_blocked)
      × Covers surfaces (collect_repair surfaces command_blocked)
      × Within
          (map_negotiation_repair
            (if command_blocked then "command_blocked" else "command_degraded"))
          (collect_repair surfaces command_blocked)
unfolding collect_repair
collect_repair_complete surfaces command_blocked =
    let last =
      map_negotiation_repair (if command_blocked then "command_blocked" else "command_degraded") in
    let xs = repair_of [] surfaces in
    (
      add_steps-IsUnique xs last (repair_of-IsUnique [] surfaces tt),
      repair_of-Covers [] surfaces (add_steps xs last) (λ x e. add_steps-keeps x xs last e),
      add_steps-adds xs last,
    )
