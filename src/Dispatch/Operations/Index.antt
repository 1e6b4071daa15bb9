-- ===== src/Dispatch/Operations/Index.antt =====
-- discovery/operations.py: what an index of identifiers holds.
use keyhole_sdk.Base.{
  ℕ, ◌≡◌, refl, sym, ap, ◌∙◌, String, true, false, ◌⊎◌, inl, inr, Option, none, some, List, [], ◌∷◌,
  elem, str_eq, arith, Bool-cases, eq_iff, absurd_left, right_injective, left_injective,
}
use keyhole_sdk.Base.Dict.{lookup, insert, lookup-insert}
use keyhole_sdk.Dispatch.Operations.{
  OperationObject, AmbiguousAlias, Index, identifiers, is_other, name_in, index_identifiers,
}

-- The operation stands in the list.
abbrev pub In : OperationObject → List OperationObject → Type 0
In o [] = ⊥
In o (p ∷ ps) = (o ≡ p) ⊎ In o ps

-- The identifier leads to an object of the identity.
abbrev pub Leads : String → ℕ → Index → Type 0
Leads id n index = (q : OperationObject) × (lookup id index ≡ some q) × (q.identity ≡ n)

-- The operation advertises the identifier.
abbrev pub Advertises : OperationObject → String → Type 0
Advertises o id = elem id (identifiers (o.definition)) ≡ true

pub some_injective : {A : Type 0} {a b : A} → some a ≡ some b → a ≡ b
some_injective e = ground arith

insert-Leads :
    (o : OperationObject) (k id : String) (n : ℕ) (index : Index)
    → is_other o (lookup k index) ≡ false
    → Leads id n index
    → Leads id n (insert k o index)
insert-Leads o k id n index h (q, e, i) = elim (Bool-cases (str_eq k id)) [
  | inr d ↦ (q, lookup-insert k id o index ∙ ground arith, i)
  | inl d ↦
      let there : lookup k index ≡ some q =
        ap (λ j. lookup j index) (ground (arith, eq_iff k id)) ∙ e in
      let same : is_other o (some q) ≡ false = coe 0 1 (i. is_other o (there i) ≡ false) h in
      (o, lookup-insert k id o index ∙ ground arith, ground arith)
]

insert-here :
    (o : OperationObject) (k id : String) (index : Index)
    → str_eq k id ≡ true
    → Leads id (o.identity) (insert k o index)
insert-here o k id index e = (o, lookup-insert k id o index ∙ ground arith, refl)

abbrev pub clash : OperationObject → String → Index → AmbiguousAlias
clash o k index = record {
  identifier = k;
  existing = name_in (lookup k index);
  other = o.definition.operation_name;
}

pub clashing :
    (o : OperationObject) (k : String) (ks : List String) (index : Index)
    → is_other o (lookup k index) ≡ true
    → index_identifiers o (k ∷ ks) index ≡ inl (clash o k index)
unfolding index_identifiers
clashing o k ks index e = rw (e, index_identifiers) refl

pub advancing :
    (o : OperationObject) (k : String) (ks : List String) (index : Index)
    → is_other o (lookup k index) ≡ false
    → index_identifiers o (k ∷ ks) index ≡ index_identifiers o ks (insert k o index)
unfolding index_identifiers
advancing o k ks index e = rw (e, index_identifiers) refl

pub index_identifiers-keeps :
    (o : OperationObject) (ks : List String) (index next : Index) (id : String) (n : ℕ)
    → index_identifiers o ks index ≡ inr next
    → Leads id n index
    → Leads id n next
unfolding index_identifiers
index_identifiers-keeps o [] index next id n h l = coe 0 1 (i. Leads id n (right_injective h i)) l
index_identifiers-keeps o (k ∷ ks) index next id n h l =
    elim (Bool-cases (is_other o (lookup k index))) [
      | inl e ↦ absurd_left (sym (clashing o k ks index e) ∙ h)
      | inr e ↦
          index_identifiers-keeps o ks (insert k o index) next id n
            (sym (advancing o k ks index e) ∙ h) (insert-Leads o k id n index e l)
    ]

pub index_identifiers-Leads :
    (o : OperationObject) (ks : List String) (index next : Index) (id : String)
    → index_identifiers o ks index ≡ inr next
    → elem id ks ≡ true
    → Leads id (o.identity) next
index_identifiers-Leads o [] index next id h m = ground arith
index_identifiers-Leads o (k ∷ ks) index next id h m =
    elim (Bool-cases (is_other o (lookup k index))) [
      | inl e ↦ absurd_left (sym (clashing o k ks index e) ∙ h)
      | inr e ↦
          let h₁ = sym (advancing o k ks index e) ∙ h in
          elim (Bool-cases (str_eq k id)) [
            | inl d ↦
                index_identifiers-keeps o ks (insert k o index) next id (o.identity) h₁
                  (insert-here o k id index d)
            | inr d ↦
                index_identifiers-Leads o ks (insert k o index) next id h₁
                  (ground (arith, eq_iff id k, eq_iff k id))
          ]
    ]

-- The object at an identifier was there, or is the one that is indexed.
abbrev pub Arrived : OperationObject → List String → Index → String → OperationObject → Type 0
Arrived o ks index id p = (lookup id index ≡ some p) ⊎ ((p ≡ o) × (elem id ks ≡ true))

pub index_identifiers-Arrived :
    (o : OperationObject) (ks : List String) (index next : Index) (id : String)
    (p : OperationObject)
    → index_identifiers o ks index ≡ inr next
    → lookup id next ≡ some p
    → Arrived o ks index id p
unfolding index_identifiers
index_identifiers-Arrived o [] index next id p h l =
    inl (ap (λ d. lookup id d) (right_injective h) ∙ l)
index_identifiers-Arrived o (k ∷ ks) index next id p h l =
    elim (Bool-cases (is_other o (lookup k index))) [
      | inl e ↦ absurd_left (sym (clashing o k ks index e) ∙ h)
      | inr e ↦ from_rest (
          index_identifiers-Arrived o ks (insert k o index) next id p
            (sym (advancing o k ks index e) ∙ h) l)
    ]
  where
    from_rest : Arrived o ks (insert k o index) id p → Arrived o (k ∷ ks) index id p
    from_rest (inr (a, b)) = inr (a, ground arith)
    from_rest (inl a) = elim (Bool-cases (str_eq k id)) [
      | inl d ↦ inr (
        sym (some_injective (sym (lookup-insert k id o index ∙ ground arith) ∙ a)),
        ground (arith, eq_iff k id, eq_iff id k),
      )
      | inr d ↦ inl (sym (lookup-insert k id o index ∙ ground arith) ∙ a)
    ]

-- An indexed object of another identity stood in the way.
abbrev pub Blocks : OperationObject → List String → Index → AmbiguousAlias → Type 0
Blocks o ks index e =
    (elem (e.identifier) ks ≡ true)
    × ((q : OperationObject) × (lookup (e.identifier) index ≡ some q)
        × (is_other o (some q) ≡ true))

self_is_same : (o : OperationObject) → is_other o (some o) ≡ true → ⊥
self_is_same o h = ground arith

blocking :
    (o : OperationObject) (found : Option OperationObject)
    → is_other o found ≡ true
    → (q : OperationObject) × (found ≡ some q) × (is_other o (some q) ≡ true)
blocking o none h = ground arith
blocking o (some q) h = (q, refl, h)

pub index_identifiers-Blocks :
    (o : OperationObject) (ks : List String) (index : Index) (e : AmbiguousAlias)
    → index_identifiers o ks index ≡ inl e
    → Blocks o ks index e
unfolding index_identifiers
index_identifiers-Blocks o [] index e h = absurd_left (sym h)
index_identifiers-Blocks o (k ∷ ks) index e h = elim (Bool-cases (is_other o (lookup k index))) [
  | inl t ↦
      coe 0 1 (i. Blocks o (k ∷ ks) index (left_injective (sym (clashing o k ks index t) ∙ h) i))
        (ground (arith, eq_iff k k), blocking o (lookup k index) t)
  | inr t ↦
      from_rest
        (index_identifiers-Blocks o ks (insert k o index) e (sym (advancing o k ks index t) ∙ h))
]
  where
    from_rest : Blocks o ks (insert k o index) e → Blocks o (k ∷ ks) index e
    from_rest (m, (q, a, b)) = elim (Bool-cases (str_eq k (e.identifier))) [
      | inr d ↦
          (ground arith, (q, sym (lookup-insert k (e.identifier) o index ∙ ground arith) ∙ a, b))
      | inl d ↦
          let same : o ≡ q =
            some_injective (sym (lookup-insert k (e.identifier) o index ∙ ground arith) ∙ a) in
          elim (self_is_same o (coe 0 1 (i. is_other o (some (sym same i)) ≡ true) b)) [ ]
    ]
