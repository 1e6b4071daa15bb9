-- ===== src/Dispatch/Operations/Resolution.antt =====
-- discovery/operations.py: what a registry resolves.
use keyhole_sdk.Base.{
  ℕ, ◌≡◌, refl, sym, ap, ◌∙◌, String, true, false, ◌⊎◌, inl, inr, some, List, [], ◌∷◌, arith,
  Sum-cases, absurd_left, right_injective, Bool, ◌↔◌,
}
use keyhole_sdk.Base.Dict.{lookup}
use keyhole_sdk.Dispatch.Operations.{
  OperationObject, AmbiguousAlias, Index, identifiers, is_other, index_identifiers,
  index_operations, build_indexes,
}
use keyhole_sdk.Dispatch.Operations.Index.{
  In, Leads, Advertises, Blocks, index_identifiers-keeps, index_identifiers-Leads,
  index_identifiers-Arrived, index_identifiers-Blocks, some_injective,
}

next-inl :
    (o : OperationObject) (os : List OperationObject) (index : Index) (e : AmbiguousAlias)
    → index_identifiers o (identifiers (o.definition)) index ≡ inl e
    → index_operations (o ∷ os) index ≡ inl e
unfolding index_operations
next-inl o os index e h = rw (h, index_operations) refl

next-inr :
    (o : OperationObject) (os : List OperationObject) (index next : Index)
    → index_identifiers o (identifiers (o.definition)) index ≡ inr next
    → index_operations (o ∷ os) index ≡ index_operations os next
unfolding index_operations
next-inr o os index next h = rw (h, index_operations) refl

index_operations-keeps :
    (os : List OperationObject) (index final : Index) (id : String) (n : ℕ)
    → index_operations os index ≡ inr final
    → Leads id n index
    → Leads id n final
unfolding index_operations
index_operations-keeps [] index final id n h l = coe 0 1 (i. Leads id n (right_injective h i)) l
index_operations-keeps (o ∷ os) index final id n h l =
    elim (Sum-cases (index_identifiers o (identifiers (o.definition)) index)) [
      | inl (e, k) ↦ absurd_left (sym (next-inl o os index e k) ∙ h)
      | inr (next, k) ↦
          index_operations-keeps os next final id n (sym (next-inr o os index next k) ∙ h)
            (index_identifiers-keeps o (identifiers (o.definition)) index next id n k l)
    ]

index_operations-Leads :
    (os : List OperationObject) (index final : Index) (o : OperationObject) (id : String)
    → index_operations os index ≡ inr final
    → In o os
    → Advertises o id
    → Leads id (o.identity) final
index_operations-Leads [] index final o id h m a = elim m [ ]
index_operations-Leads (p ∷ os) index final o id h m a =
    elim (Sum-cases (index_identifiers p (identifiers (p.definition)) index)) [
      | inl (e, k) ↦ absurd_left (sym (next-inl p os index e k) ∙ h)
      | inr (next, k) ↦
          let h₁ = sym (next-inr p os index next k) ∙ h in
          elim m [
            | inl same ↦ index_operations-keeps os next final id (o.identity) h₁ (
                coe 0 1 (i. Leads id ((sym same i).identity) next) (
                  index_identifiers-Leads p (identifiers (p.definition)) index next id k
                    (coe 0 1 (i. Advertises (same i) id) a)))
            | inr rest ↦ index_operations-Leads os next final o id h₁ rest a
          ]
    ]

-- The object at an identifier was there, or is a listed one that advertises it.
abbrev Came : List OperationObject → Index → String → OperationObject → Type 0
Came os index id p = (lookup id index ≡ some p) ⊎ (In p os × Advertises p id)

index_operations-Came :
    (os : List OperationObject) (index final : Index) (id : String) (p : OperationObject)
    → index_operations os index ≡ inr final
    → lookup id final ≡ some p
    → Came os index id p
unfolding index_operations
index_operations-Came [] index final id p h l = inl (ap (λ d. lookup id d) (right_injective h) ∙ l)
index_operations-Came (o ∷ os) index final id p h l =
    elim (Sum-cases (index_identifiers o (identifiers (o.definition)) index)) [
      | inl (e, k) ↦ absurd_left (sym (next-inl o os index e k) ∙ h)
      | inr (next, k) ↦
          elim (index_operations-Came os next final id p (sym (next-inr o os index next k) ∙ h) l) [
            | inr (m, a) ↦ inr (inr m, a)
            | inl there ↦
                elim (index_identifiers-Arrived o (identifiers (o.definition)) index next id p k
                  there) [
                    | inl before ↦ inl before
                    | inr (same, a) ↦ inr (inl same, coe 0 1 (i. Advertises (sym same i) id) a)
                  ]
          ]
    ]

-- In an index that is built, every identifier that a listed operation advertises leads to an object
-- of that operation's identity.
build_indexes-Leads :
    (os : List OperationObject) (index : Index) (o : OperationObject) (id : String)
    → build_indexes os ≡ inr index
    → In o os
    → Advertises o id
    → Leads id (o.identity) index
unfolding build_indexes
build_indexes-Leads os index o id h m a = index_operations-Leads os [] index o id h m a

-- In an index that is built, an identifier leads only to a listed operation that advertises it.
pub build_indexes-Advertises :
    (os : List OperationObject) (index : Index) (id : String) (p : OperationObject)
    → build_indexes os ≡ inr index
    → lookup id index ≡ some p
    → In p os × Advertises p id
unfolding build_indexes lookup
build_indexes-Advertises os index id p h l = elim (index_operations-Came os [] index id p h l) [
  | inr found ↦ found
  | inl empty ↦ absurd_none empty
]
  where
    absurd_none : lookup id [] ≡ some p → In p os × Advertises p id
    absurd_none e = ground arith

-- Two operations of different identities, of which the first is listed and advertises the
-- identifier, and the second stood at it before or does the same.
abbrev Conflict : List OperationObject → Index → String → Type 0
Conflict os index id =
    (o : OperationObject) × (p : OperationObject) × In o os
    × Advertises o id
    × Came os index id p
    × (is_other o (some p) ≡ true)

at_head :
    (o : OperationObject) (os : List OperationObject) (index : Index) (e : AmbiguousAlias)
    → Blocks o (identifiers (o.definition)) index e
    → Conflict (o ∷ os) index (e.identifier)
at_head o os index e (m, (q, a, b)) = (o, q, inl refl, m, inl a, b)

in_rest :
    (o : OperationObject) (os : List OperationObject) (index next : Index) (id : String)
    → index_identifiers o (identifiers (o.definition)) index ≡ inr next
    → Conflict os next id
    → Conflict (o ∷ os) index id
in_rest o os index next id k (x, p, m, a, inr (n, b), d) = (x, p, inr m, a, inr (inr n, b), d)
in_rest o os index next id k (x, p, m, a, inl there, d) =
    elim (index_identifiers-Arrived o (identifiers (o.definition)) index next id p k there) [
      | inl before ↦ (x, p, inr m, a, inl before, d)
      | inr (same, b) ↦
          (x, p, inr m, a, inr (inl same, coe 0 1 (i. Advertises (sym same i) id) b), d)
    ]

index_operations-Conflict :
    (os : List OperationObject) (index : Index) (e : AmbiguousAlias)
    → index_operations os index ≡ inl e
    → Conflict os index (e.identifier)
unfolding index_operations
index_operations-Conflict [] index e h = absurd_left (sym h)
index_operations-Conflict (o ∷ os) index e h =
    elim (Sum-cases (index_identifiers o (identifiers (o.definition)) index)) [
      | inl (f, k) ↦ at_head o os index e (
          index_identifiers-Blocks o (identifiers (o.definition)) index e
            (k ∙ sym (next-inl o os index f k) ∙ h))
      | inr (next, k) ↦
          in_rest o os index next (e.identifier) k
            (index_operations-Conflict os next e (sym (next-inr o os index next k) ∙ h))
    ]

-- Two listed operations of different identities that advertise the identifier.
abbrev pub Shared : List OperationObject → String → Type 0
Shared os id =
    (o : OperationObject) × (p : OperationObject) × In o os
    × In p os
    × Advertises o id
    × Advertises p id
    × (is_other o (some p) ≡ true)

-- Where an index is refused, the named identifier is advertised by two listed operations of different
-- identities.
pub build_indexes-Shared :
    (os : List OperationObject) (e : AmbiguousAlias)
    → build_indexes os ≡ inl e
    → Shared os (e.identifier)
unfolding build_indexes lookup
build_indexes-Shared os e h = listed (index_operations-Conflict os [] e h)
  where
    listed : Conflict os [] (e.identifier) → Shared os (e.identifier)
    listed (x, p, m, a, inr (n, b), d) = (x, p, m, n, a, b, d)
    listed (x, p, m, a, inl there, d) = ground arith

absurd_true : {A : Type 0} {b : Bool} → b ≡ false → b ≡ true → A
absurd_true f t = ground arith

no_two_identities :
    (o p : OperationObject) (id : String) (index : Index)
    → Leads id (o.identity) index
    → Leads id (p.identity) index
    → is_other o (some p) ≡ false
no_two_identities o p id index (q, a, i) (r, b, j) =
    let same : q ≡ r = some_injective (sym a ∙ b) in ground (arith, ap (λ x. x.identity) same)

-- An index is refused exactly when two listed operations of different identities advertise one
-- identifier.
pub build_indexes-refused :
    (os : List OperationObject)
    → ((e : AmbiguousAlias) × (build_indexes os ≡ inl e)) ↔ ((id : String) × Shared os id)
build_indexes-refused os = (
  λ h. let (e, k) = h in (e.identifier, build_indexes-Shared os e k),
  λ h.
      let (id, (o, p, m, n, a, b, d)) = h in
      elim (Sum-cases (build_indexes os)) [
        | inl found ↦ found
        | inr (index, k) ↦
            absurd_true
              (no_two_identities o p id index (build_indexes-Leads os index o id k m a)
                (build_indexes-Leads os index p id k n b))
              d
      ],
)
