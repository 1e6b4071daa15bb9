-- ===== src/Capability/Namespace/Accepted.antt =====
-- capability/namespace.py: which names are accepted, and what is made of accepted parts.
use keyhole_sdk.Base.{
  ℕ, ◌≡◌, refl, sym, ap, ◌∙◌, ◌↔◌, Bool, true, false, Option, none, some, List, [], ◌∷◌, ◌++◌,
  arith, is_empty, Bool-cases, inl, inr,
}
use keyhole_sdk.Base.Codes.{Codes}
use keyhole_sdk.Capability.Namespace.{
  NamespaceRejectReason, has_double_dot, split_dots, add_reason, check_segment,
  check_version_segment, reasons_of, validate_raw, assembled,
}
use keyhole_sdk.Capability.Namespace.Parts.{
  LacksDot, segment_matches-LacksDot, version_matches-LacksDot, join_dots, join_dots-split_dots,
  split_dots_whole, split_dots-append, has_double_dot_whole, has_double_dot-append,
  starts_dot-append, starts_dot-LacksDot,
}

add_reason-empty :
    (rs : List NamespaceRejectReason) (o : Option NamespaceRejectReason)
    → is_empty (add_reason rs o) ≡ true
    → (is_empty rs ≡ true) × (o ≡ none)
unfolding add_reason
add_reason-empty [] none h = (refl, refl)
add_reason-empty [] (some r) h = ground arith
add_reason-empty (x ∷ rs) none h = ground arith
add_reason-empty (x ∷ rs) (some r) h = ground arith

module _ (is_upper : ℕ → Bool) where
  check_segment-Lacks :
      (s : Codes) → check_segment is_upper s ≡ none → LacksDot s × (is_empty s ≡ false)
  unfolding check_segment
  check_segment-Lacks s h = (segment_matches-LacksDot s (ground arith), ground arith)

  check_version_segment-Lacks :
      (s : Codes) → check_version_segment is_upper s ≡ none → LacksDot s × (is_empty s ≡ false)
  unfolding check_version_segment
  check_version_segment-Lacks s h = (version_matches-LacksDot s (ground arith), ground arith)

  -- Four accepted parts.
  pub record AreParts (d c k v : Codes) : Type 0 where
    pub domain_ok : check_segment is_upper d ≡ none
    pub category_ok : check_segment is_upper c ≡ none
    pub capability_ok : check_segment is_upper k ≡ none
    pub version_ok : check_version_segment is_upper v ≡ none

  -- A name that is put together from four accepted parts.
  abbrev pub IsCanonical : Codes → Type 0
  IsCanonical name =
      (d : Codes) × (c : Codes) × (k : Codes) × (v : Codes) × (name ≡ assembled d c k v)
      × AreParts d c k v

  pub reasons_of-AreParts :
      (d c k v : Codes)
      → is_empty (reasons_of is_upper (d ∷ c ∷ k ∷ v ∷ [])) ≡ true
      → AreParts d c k v
  unfolding reasons_of
  reasons_of-AreParts d c k v h =
      let (h₃, e₄) = add_reason-empty _ _ h in
      let (h₂, e₃) = add_reason-empty _ _ h₃ in
      let (h₁, e₂) = add_reason-empty _ _ h₂ in
      let (h₀, e₁) = add_reason-empty _ _ h₁ in
      record { domain_ok = e₁; category_ok = e₂; capability_ok = e₃; version_ok = e₄ }

  parts-IsCanonical :
      (name : Codes) (parts : List Codes)
      → split_dots name ≡ parts
      → is_empty (reasons_of is_upper parts) ≡ true
      → IsCanonical name
  unfolding reasons_of
  parts-IsCanonical name [] e h = ground arith
  parts-IsCanonical name (d ∷ []) e h = ground arith
  parts-IsCanonical name (d ∷ c ∷ []) e h = ground arith
  parts-IsCanonical name (d ∷ c ∷ k ∷ []) e h = ground arith
  parts-IsCanonical name (d ∷ c ∷ k ∷ v ∷ []) e h = (
    d,
    c,
    k,
    v,
    sym (join_dots-split_dots name) ∙ unfold join_dots in ap join_dots e,
    reasons_of-AreParts d c k v h,
  )
  parts-IsCanonical name (d ∷ c ∷ k ∷ v ∷ x ∷ xs) e h = ground arith

  pub split_dots-assembled :
      (d c k v : Codes) → AreParts d c k v → split_dots (assembled d c k v) ≡ d ∷ c ∷ k ∷ v ∷ []
  split_dots-assembled d c k v p =
      rw
        (
          split_dots-append d (c ++ (46 ∷ (k ++ (46 ∷ v)))) (check_segment-Lacks d (p.domain_ok)).0,
          split_dots-append c (k ++ (46 ∷ v)) (check_segment-Lacks c (p.category_ok)).0,
          split_dots-append k v (check_segment-Lacks k (p.capability_ok)).0,
          split_dots_whole v (check_version_segment-Lacks v (p.version_ok)).0,
        )
        refl

  has_double_dot-assembled :
      (d c k v : Codes) → AreParts d c k v → has_double_dot (assembled d c k v) ≡ false
  has_double_dot-assembled d c k v p =
      let (ld, nd) = check_segment-Lacks d (p.domain_ok) in
      let (lc, nc) = check_segment-Lacks c (p.category_ok) in
      let (lk, nk) = check_segment-Lacks k (p.capability_ok) in
      let (lv, nv) = check_version_segment-Lacks v (p.version_ok) in
      has_double_dot-append d (c ++ (46 ∷ (k ++ (46 ∷ v)))) ld (starts_dot-append c _ lc nc) (
        has_double_dot-append c (k ++ (46 ∷ v)) lc (starts_dot-append k _ lk nk)
          (has_double_dot-append k v lk (starts_dot-LacksDot v lv nv) (has_double_dot_whole v lv)))

  pub validate_raw-assembled :
      (d c k v : Codes)
      → AreParts d c k v
      → (validate_raw is_upper (assembled d c k v)).valid ≡ true
  unfolding validate_raw
  validate_raw-assembled d c k v p =
      rw (has_double_dot-assembled d c k v p, split_dots-assembled d c k v p)
        (unfold reasons_of in
          unfold add_reason in rw (p.domain_ok, p.category_ok, p.capability_ok, p.version_ok) refl)

  validate_raw-IsCanonical :
      (name : Codes) → (validate_raw is_upper name).valid ≡ true → IsCanonical name
  unfolding validate_raw
  validate_raw-IsCanonical name h = elim (Bool-cases (has_double_dot name)) [
    | inl e ↦ ground arith
    | inr e ↦ parts-IsCanonical name (split_dots name) refl (ground arith)
  ]

  -- A name is accepted just when it is the text of four parts joined by dots, of which each of the
  -- first three passes the check of a segment and the last the check of a version.
  pub validate_raw-accepts :
      (name : Codes) → (validate_raw is_upper name).valid ≡ true ↔ IsCanonical name
  validate_raw-accepts name =
      (validate_raw-IsCanonical name, λ (d, c, k, v, e, p). rw e (validate_raw-assembled d c k v p))
