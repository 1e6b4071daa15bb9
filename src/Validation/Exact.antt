-- ===== src/Validation/Exact.antt =====
-- validation/compatibility.py: which names are reported.
use keyhole_sdk.Base.{
  ℕ, ◌≡◌, refl, sym, ◌⊎◌, if◌then◌else◌, ap, ◌∙◌, String, Bool, true, false, not, ◌&&◌, ◌||◌,
  Option, none, some, List, [], ◌∷◌, elem, str_eq, arith, Bool-cases, inl, inr, eq_iff, ◌==◌,
}
use keyhole_sdk.Base.Dict.{lookup, lookup-insert}
use keyhole_sdk.Validation.{
  first_of_each, self_candidates, self_dependencies, Conflict, against, conflict_of, or_none,
  conflict_candidates, noted, produced_bases, version_conflicts, base_ver,
}

abbrev pub keys : {A : Type 0} → List (String × A) → List String
keys [] = []
keys ((k, a) ∷ xs) = k ∷ keys xs

-- No key stands twice.
abbrev pub is_distinct : List String → Bool
is_distinct [] = true
is_distinct (k ∷ ks) = not (elem k ks) && is_distinct ks

same_member : (j k : String) (seen : List String) → str_eq j k ≡ true → elem j seen ≡ elem k seen
same_member j k seen e = same (ground (arith, eq_iff j k))
  where
    same : j ≡ k → elem j seen ≡ elem k seen
    same h = ap (λ s. elem s seen) h

keys-first_of_each :
    {A : Type 0} (j : String) (seen : List String) (xs : List (String × A))
    → elem j (keys (first_of_each seen xs)) ≡ (elem j (keys xs) && not (elem j seen))
unfolding first_of_each
keys-first_of_each j seen [] = refl
keys-first_of_each j seen ((k, a) ∷ xs) = elim (Bool-cases (elem k seen)) [
  | inl e ↦ simp e (ground (arith, keys-first_of_each j seen xs, same_member j k seen))
  | inr e ↦ simp e (ground (arith, keys-first_of_each j (k ∷ seen) xs, same_member j k seen))
]

first_of_each-distinct :
    {A : Type 0} (seen : List String) (xs : List (String × A))
    → is_distinct (keys (first_of_each seen xs)) ≡ true
unfolding first_of_each
first_of_each-distinct seen [] = refl
first_of_each-distinct seen ((k, a) ∷ xs) = elim (Bool-cases (elem k seen)) [
  | inl e ↦ simp e (first_of_each-distinct seen xs)
  | inr e ↦ simp e (
      ground (
        arith,
        first_of_each-distinct (k ∷ seen) xs,
        keys-first_of_each k (k ∷ seen) xs,
        eq_iff k k,
      ))
]

keys-self_candidates :
    (j : String) (produces consumed : List String)
    → elem j (keys (self_candidates produces consumed)) ≡ (elem j consumed && elem j produces)
keys-self_candidates j produces [] = refl
keys-self_candidates j produces (cap ∷ caps) = elim (Bool-cases (elem cap produces)) [
  | inl e ↦
      simp e (ground (arith, keys-self_candidates j produces caps, same_member j cap produces))
  | inr e ↦
      simp e (ground (arith, keys-self_candidates j produces caps, same_member j cap produces))
]

abbrev pub other_than : ℕ → Option ℕ → Bool
other_than n none = false
other_than n (some m) = not (m == n)

-- The version, if the name has the base.
abbrev pub version_if : String → Option (String × ℕ) → Option ℕ
version_if base none = none
version_if base (some (b, n)) = if str_eq base b then some n else none

abbrev pub or_else : Option ℕ → Option ℕ → Option ℕ
or_else (some n) o = some n
or_else none o = o

keys-or_none :
    (cap base b : String) (n : ℕ) (l : Option ℕ) (rest : List (String × Conflict))
    → elem base (keys (or_none (against cap b n l) rest))
      ≡ ((str_eq base b && other_than n l) || elem base (keys rest))
keys-or_none cap base b n none rest = ground arith
keys-or_none cap base b n (some m) rest = elim (Bool-cases (m == n)) [
  | inl e ↦ simp e (ground arith)
  | inr e ↦ simp e (ground arith)
]

-- The name has the base, and another version than the one that is produced of it.
differs_in : List (String × ℕ) → String → Option (String × ℕ) → Bool
differs_in bases base none = false
differs_in bases base (some (b, n)) = str_eq base b && other_than n (lookup b bases)

keys-conflict_of :
    (cap base : String) (bases : List (String × ℕ)) (o : Option (String × ℕ))
    (rest : List (String × Conflict))
    → elem base (keys (or_none (conflict_of bases cap o) rest))
      ≡ (differs_in bases base o || elem base (keys rest))
unfolding differs_in
keys-conflict_of cap base bases none rest = refl
keys-conflict_of cap base bases (some (b, n)) rest = keys-or_none cap base b n (lookup b bases) rest

-- The consumed name has another version of the base than the one that is given.
abbrev pub other_version : Option ℕ → Option ℕ → Bool
other_version produced none = false
other_version produced (some n) = other_than n produced

differs_in_lem :
    (bases : List (String × ℕ)) (base : String) (o : Option (String × ℕ))
    → differs_in bases base o ≡ other_version (lookup base bases) (version_if base o)
unfolding differs_in
differs_in_lem bases base none = refl
differs_in_lem bases base (some (b, n)) = elim (Bool-cases (str_eq base b)) [
  | inl e ↦
      let same : base ≡ b = ground (arith, eq_iff base b) in
      simp e (ap (λ c. other_than n (lookup c bases)) (sym same))
  | inr e ↦ simp e refl
]

lookup-noted :
    (base : String) (o : Option (String × ℕ)) (bases : List (String × ℕ))
    → lookup base (noted o bases) ≡ or_else (version_if base o) (lookup base bases)
lookup-noted base none bases = refl
lookup-noted base (some (b, n)) bases =
    lookup-insert b base n bases ∙ by_base (Bool-cases (str_eq base b))
  where
    by_base :
        (str_eq base b ≡ true) ⊎ (str_eq base b ≡ false)
        → (if str_eq b base then some n else lookup base bases)
          ≡ or_else (if str_eq base b then some n else none) (lookup base bases)
    by_base (inl e) =
        let back : str_eq b base ≡ true = ground (arith, eq_iff base b, eq_iff b base) in
        simp (e, back) refl
    by_base (inr e) =
        let back : str_eq b base ≡ false = ground (arith, eq_iff base b, eq_iff b base) in
        simp (e, back) refl

or_else_assoc : (x y z : Option ℕ) → or_else x (or_else y z) ≡ or_else (or_else x y) z
or_else_assoc (some n) y z = refl
or_else_assoc none y z = refl

module _ (digit : ℕ → Option ℕ) where
  -- The version that the last of the names with the base has.
  abbrev pub last_version : String → List String → Option ℕ
  last_version base [] = none
  last_version base (cap ∷ caps) =
      or_else (last_version base caps) (version_if base (base_ver digit cap))

  abbrev pub any_differs : Option ℕ → String → List String → Bool
  any_differs produced base [] = false
  any_differs produced base (cap ∷ caps) =
      other_version produced (version_if base (base_ver digit cap))
      || any_differs produced base caps

  lookup-produced_bases :
      (base : String) (caps : List String) (bases : List (String × ℕ))
      → lookup base (produced_bases digit caps bases)
        ≡ or_else (last_version base caps) (lookup base bases)
  unfolding produced_bases
  lookup-produced_bases base [] bases = refl
  lookup-produced_bases base (cap ∷ caps) bases =
      lookup-produced_bases base caps (noted (base_ver digit cap) bases)
      ∙ ap (or_else (last_version base caps)) (lookup-noted base (base_ver digit cap) bases)
      ∙ or_else_assoc (last_version base caps) (version_if base (base_ver digit cap))
          (lookup base bases)

  keys-conflict_candidates :
      (base : String) (bases : List (String × ℕ)) (consumed : List String)
      → elem base (keys (conflict_candidates digit bases consumed))
        ≡ any_differs (lookup base bases) base consumed
  unfolding conflict_candidates
  keys-conflict_candidates base bases [] = refl
  keys-conflict_candidates base bases (cap ∷ caps) =
      keys-conflict_of cap base bases (base_ver digit cap) (conflict_candidates digit bases caps)
      ∙ ap (λ b. b || elem base (keys (conflict_candidates digit bases caps)))
          (differs_in_lem bases base (base_ver digit cap))
      ∙ ap (λ b. other_version (lookup base bases) (version_if base (base_ver digit cap)) || b)
          (keys-conflict_candidates base bases caps)

and_true : (a : Bool) → (a && true) ≡ a
and_true true = refl
and_true false = refl

or_else-none : (o : Option ℕ) → or_else o none ≡ o
or_else-none none = refl
or_else-none (some n) = refl

-- A name is reported as a dependency on itself exactly if it is both consumed and produced, and a base is
-- reported as a conflict exactly if some consumed name has it with another version than the last of the
-- produced names that has it; no name and no base is reported twice.
pub version_conflicts-exact :
    (digit : ℕ → Option ℕ) (produces consumed : List String) (k : String)
    → (elem k (keys (self_dependencies produces consumed)) ≡ (elem k consumed && elem k produces))
      × (elem k (keys (version_conflicts digit produces consumed))
          ≡ any_differs digit (last_version digit k produces) k consumed)
      × (is_distinct (keys (self_dependencies produces consumed)) ≡ true)
      × (is_distinct (keys (version_conflicts digit produces consumed)) ≡ true)
unfolding self_dependencies version_conflicts lookup
version_conflicts-exact digit produces consumed k =
    let selves = self_candidates produces consumed in
    let bases = produced_bases digit produces [] in
    let clashes = conflict_candidates digit bases consumed in
    (
      keys-first_of_each k [] selves
          ∙ and_true (elem k (keys selves))
          ∙ keys-self_candidates k produces consumed,
      keys-first_of_each k [] clashes
          ∙ and_true (elem k (keys clashes))
          ∙ keys-conflict_candidates digit k bases consumed
          ∙ ap (λ o. any_differs digit o k consumed)
              (lookup-produced_bases digit k produces []
                ∙ or_else-none (last_version digit k produces)),
      first_of_each-distinct [] selves,
      first_of_each-distinct [] clashes,
    )
