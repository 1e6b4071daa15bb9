-- ===== src/Capability/Namespace/Creation.antt =====
-- capability/namespace.py: names made from parts, and the correction offered for a refused name.
use keyhole_sdk.Base.{
  ℕ, ◌≡◌, refl, sym, ap, ◌∙◌, ◌↔◌, Bool, true, false, not, ◌&&◌, List, [], ◌∷◌, ◌++◌, arith,
  is_empty, if◌then◌else◌, Bool-cases, inl, inr, length, ◌+◌,
}
use keyhole_sdk.Base.Codes.{Codes, same_codes}
use keyhole_sdk.Base.Int.{ℤ}
use keyhole_sdk.Capability.Namespace.{
  has_double_dot, split_dots, push, is_dot, reasons_of, validate_raw, safe_normalize,
  validate_capability_name, suggest_correction, create_capability_name, assembled,
}
use keyhole_sdk.Capability.Namespace.Parts.{
  LacksDot, split_dots_whole, split_dots-append, split_dots-ne-nil,
}
use keyhole_sdk.Capability.Namespace.Accepted.{
  AreParts, validate_raw-assembled, reasons_of-AreParts, split_dots-assembled,
}

unfoldable count_dots : Codes → ℕ
count_dots [] = 0
count_dots (c ∷ s) = let rest = count_dots s in if is_dot c then 1 + rest else rest

count_dots-append : (s t : Codes) → count_dots (s ++ t) ≡ count_dots s + count_dots t
unfolding count_dots
count_dots-append [] t = ground arith
count_dots-append (c ∷ s) t = ground (arith, count_dots-append s t)

count_dots-assembled :
    (d c k v : Codes)
    → count_dots (assembled d c k v) ≡ 3 + count_dots d + count_dots c + count_dots k + count_dots v
unfolding count_dots
count_dots-assembled d c k v = ground (
  arith,
  count_dots-append d (46 ∷ (c ++ (46 ∷ (k ++ (46 ∷ v))))),
  count_dots-append c (46 ∷ (k ++ (46 ∷ v))),
  count_dots-append k (46 ∷ v),
)

length-push : (c : ℕ) (ps : List Codes) → is_empty ps ≡ false → length (push c ps) ≡ length ps
length-push c [] h = ground arith
length-push c (p ∷ ps) h = refl

length-split_dots : (s : Codes) → length (split_dots s) ≡ 1 + count_dots s
unfolding split_dots count_dots
length-split_dots [] = refl
length-split_dots (c ∷ s) =
    ground (arith, length-split_dots s, length-push c (split_dots s), split_dots-ne-nil s)

LacksDot_lem : (s : Codes) → count_dots s ≡ 0 → LacksDot s
unfolding count_dots
LacksDot_lem [] h = tt
LacksDot_lem (c ∷ s) h = (ground arith, LacksDot_lem s (ground arith))

offered :
    (n : Codes) (b : Bool)
    → is_empty (if is_empty n then [] else if b then n else []) ≡ false
    → ((if is_empty n then [] else if b then n else []) ≡ n) × (b ≡ true)
offered [] b h = ground arith
offered (c ∷ n) b h = (ground arith, ground arith)

both-first : (a b : Bool) → (a && not b) ≡ true → a ≡ true
both-first a b h = ground arith

both-second : (a b : Bool) → (a && not b) ≡ true → b ≡ false
both-second a b h = ground arith

module _ (is_upper : ℕ → Bool) where
  length-reasons_of : (ps : List Codes) → is_empty (reasons_of is_upper ps) ≡ true → length ps ≡ 4
  unfolding reasons_of
  length-reasons_of [] h = ground arith
  length-reasons_of (d ∷ []) h = ground arith
  length-reasons_of (d ∷ c ∷ []) h = ground arith
  length-reasons_of (d ∷ c ∷ k ∷ []) h = ground arith
  length-reasons_of (d ∷ c ∷ k ∷ v ∷ []) h = refl
  length-reasons_of (d ∷ c ∷ k ∷ v ∷ x ∷ xs) h = ground arith

  -- Four texts without dots are what their name splits into.
  split_dots_four :
      (d c k v : Codes)
      → is_empty (reasons_of is_upper (split_dots (assembled d c k v))) ≡ true
      → split_dots (assembled d c k v) ≡ d ∷ c ∷ k ∷ v ∷ []
  split_dots_four d c k v h =
      let four = length-reasons_of (split_dots (assembled d c k v)) h in
      let dots = length-split_dots (assembled d c k v) in
      let sum = count_dots-assembled d c k v in
      rw
        (
          split_dots-append d (c ++ (46 ∷ (k ++ (46 ∷ v)))) (LacksDot_lem d (omega arith)),
          split_dots-append c (k ++ (46 ∷ v)) (LacksDot_lem c (omega arith)),
          split_dots-append k v (LacksDot_lem k (omega arith)),
          split_dots_whole v (LacksDot_lem v (omega arith)),
        )
        refl

  validate_raw-AreParts :
      (d c k v : Codes)
      → (validate_raw is_upper (assembled d c k v)).valid ≡ true
      → AreParts is_upper d c k v
  unfolding validate_raw
  validate_raw-AreParts d c k v h = elim (Bool-cases (has_double_dot (assembled d c k v))) [
    | inl e ↦ ground arith
    | inr e ↦
        let reasons : is_empty (reasons_of is_upper (split_dots (assembled d c k v))) ≡ true =
          ground arith in
        reasons_of-AreParts is_upper d c k v (
          coe 0 1 (i. is_empty (reasons_of is_upper (split_dots_four d c k v reasons i)) ≡ true)
            reasons)
  ]

module _ (is_upper : ℕ → Bool) (lower : Codes → Codes) (show : ℤ → Codes) where
  validate_capability_name-valid :
      (name : Codes)
      → (validate_capability_name is_upper lower show name).valid
        ≡ (validate_raw is_upper name).valid
  unfolding validate_capability_name
  validate_capability_name-valid name = elim (Bool-cases ((validate_raw is_upper name).valid)) [
    | inl e ↦ simp e
    | inr e ↦ simp e
  ]

  create_capability_name-inr :
      (d c k : Codes) (m : ℤ) (name : Codes)
      → create_capability_name is_upper lower show d c k m ≡ inr name
      → ((validate_raw is_upper (assembled d c k (118 ∷ show m))).valid ≡ true)
        × (name ≡ assembled d c k (118 ∷ show m))
  unfolding create_capability_name
  create_capability_name-inr d c k m name h =
      let same = validate_capability_name-valid (assembled d c k (118 ∷ show m)) in
      elim (Bool-cases ((validate_raw is_upper (assembled d c k (118 ∷ show m))).valid)) [
        | inl e ↦ (e, ground (arith, same))
        | inr e ↦ ground (arith, same)
      ]

  create_capability_name-made :
      (d c k : Codes) (m : ℤ) (name : Codes)
      → AreParts is_upper d c k (118 ∷ show m)
      → name ≡ assembled d c k (118 ∷ show m)
      → create_capability_name is_upper lower show d c k m ≡ inr name
  unfolding create_capability_name
  create_capability_name-made d c k m name p e = ground (
    arith,
    e,
    validate_capability_name-valid (assembled d c k (118 ∷ show m)),
    validate_raw-assembled is_upper d c k (118 ∷ show m) p,
  )

  -- A name is created just when each of its parts passes its check, the version being the letter v
  -- before the number; what is created is the parts joined by dots.
  pub create_capability_name-AreParts :
      (d c k : Codes) (m : ℤ) (name : Codes)
      → create_capability_name is_upper lower show d c k m ≡ inr name
        ↔ AreParts is_upper d c k (118 ∷ show m) × (name ≡ assembled d c k (118 ∷ show m))
  create_capability_name-AreParts d c k m name = (
    λ h.
        let (ok, e) = create_capability_name-inr d c k m name h in
        (validate_raw-AreParts is_upper d c k (118 ∷ show m) ok, e),
    λ (p, e). create_capability_name-made d c k m name p e,
  )

  -- Splitting a created name at its dots gives the parts it was created from.
  split_dots-create_capability_name :
      (d c k : Codes) (m : ℤ) (name : Codes)
      → create_capability_name is_upper lower show d c k m ≡ inr name
      → split_dots name ≡ d ∷ c ∷ k ∷ (118 ∷ show m) ∷ []
  split_dots-create_capability_name d c k m name h =
      let (ok, e) = create_capability_name-inr d c k m name h in
      rw e (
        split_dots-assembled is_upper d c k (118 ∷ show m)
          (validate_raw-AreParts is_upper d c k (118 ∷ show m) ok))

  suggest_correction-accepted :
      (name : Codes)
      → is_empty (suggest_correction is_upper lower show name) ≡ false
      → ((validate_raw is_upper (suggest_correction is_upper lower show name)).valid ≡ true)
        × (same_codes (suggest_correction is_upper lower show name) name ≡ false)
  unfolding suggest_correction
  suggest_correction-accepted name h =
      let n = safe_normalize is_upper lower show name in
      let ok = (validate_raw is_upper n).valid in
      let (e, b) = offered n (ok && not (same_codes n name)) h in
      (
        ap (λ s. (validate_raw is_upper s).valid) e ∙ both-first ok (same_codes n name) b,
        ap (λ s. same_codes s name) e ∙ both-second ok (same_codes n name) b,
      )

  suggestion_lem :
      (name : Codes)
      → is_empty ((validate_capability_name is_upper lower show name).suggestion) ≡ false
      → (validate_capability_name is_upper lower show name).suggestion
        ≡ suggest_correction is_upper lower show name
  unfolding validate_capability_name
  suggestion_lem name h = elim (Bool-cases ((validate_raw is_upper name).valid)) [
    | inl e ↦ ground arith
    | inr e ↦ ground arith
  ]

  -- A correction that is offered for a name is accepted itself, and it is another text.
  suggestion-accepted :
      (name : Codes)
      → is_empty ((validate_capability_name is_upper lower show name).suggestion) ≡ false
      → ((validate_capability_name is_upper lower show
            ((validate_capability_name is_upper lower show name).suggestion)).valid
          ≡ true)
        × (same_codes ((validate_capability_name is_upper lower show name).suggestion) name ≡ false)
  suggestion-accepted name h =
      let same = suggestion_lem name h in
      let (ok, other) = suggest_correction-accepted name (rw (sym same) h) in
      (
        validate_capability_name-valid
              ((validate_capability_name is_upper lower show name).suggestion)
            ∙ ap (λ s. (validate_raw is_upper s).valid) same
            ∙ ok,
        rw same other,
      )
