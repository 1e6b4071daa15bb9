-- ===== src/Auth/Identity/Agreement.antt =====
-- sdk_client_25/identity_match.py: the agreement of two identities, and the order of its sides.
use keyhole_sdk.Base.{
  ◌≡◌, refl, String, Bool, true, false, not, ◌&&◌, ◌||◌, Option, none, some, List, [], ◌∷◌, ◌⊎◌,
  inl, inr, ◌↔◌, str_eq, truthy, is_empty, if◌then◌else◌, Bool-cases, All, arith, eq_iff,
}
use keyhole_sdk.Base.Dict.{lookup}
use keyhole_sdk.Auth.Identity.{
  IdentityMatchResult, compare_fields, coerce, asserted, differing, compared,
  detect_identity_mismatch, project,
}

-- A field on which the two sides do not disagree: one does not assert it, or both say the same.
unfoldable pub Agrees :
    List (String × Option String) → List (String × Option String) → String → Type 0
Agrees a b f = ((asserted f a ≡ "") ⊎ (asserted f b ≡ "")) ⊎ (asserted f a ≡ asserted f b)

silent : (s : String) → truthy s ≡ false → s ≡ ""
silent s e = ground (arith, eq_iff s "", e)

-- The test by which a field is passed over.
abbrev passed : String → String → Bool
passed x y = if not (truthy x) || not (truthy y) then true else str_eq x y

passed-Agrees :
    (f : String) (a b : List (String × Option String))
    → passed (asserted f a) (asserted f b) ≡ true
    → Agrees a b f
unfolding Agrees
passed-Agrees f a b h = elim (Bool-cases (truthy (asserted f a))) [
  | inr e ↦ inl (inl (silent _ e))
  | inl e ↦ elim (Bool-cases (truthy (asserted f b))) [
    | inr g ↦ inl (inr (silent _ g))
    | inl g ↦ inr (ground (arith, h, e, g, eq_iff (asserted f a) (asserted f b)))
  ]
]

Agrees-passed :
    (f : String) (a b : List (String × Option String))
    → Agrees a b f
    → passed (asserted f a) (asserted f b) ≡ true
unfolding Agrees
Agrees-passed f a b (inl (inl e)) = simp e
Agrees-passed f a b (inl (inr e)) = elim (Bool-cases (truthy (asserted f a))) [
  | inr g ↦ rw g refl
  | inl g ↦ rw (g, e) refl
]
Agrees-passed f a b (inr e) = ground (arith, eq_iff (asserted f a) (asserted f b), e)

differing-passed :
    (f : String) (fs : List String) (a b : List (String × Option String))
    → (is_empty (differing (f ∷ fs) a b)
        ≡ (passed (asserted f a) (asserted f b) && is_empty (differing fs a b)))
unfolding differing
differing-passed f fs a b = ground arith

differing-none :
    (fs : List String) (a b : List (String × Option String))
    → (is_empty (differing fs a b) ≡ true) ↔ All (Agrees a b) fs
unfolding differing
differing-none [] a b = (λ h. tt, λ h. refl)
differing-none (f ∷ fs) a b =
    let e = differing-passed f fs a b in
    let (there, back) = differing-none fs a b in
    (
      λ h. (passed-Agrees f a b (ground (arith, h, e)), there (ground (arith, h, e))),
      λ (p, ps). ground (arith, e, Agrees-passed f a b p, back ps),
    )

-- The fields on which two identities differ are the same from either side.
differing-symmetric :
    (fs : List String) (a b : List (String × Option String)) → differing fs a b ≡ differing fs b a
unfolding differing
differing-symmetric [] a b = refl
differing-symmetric (f ∷ fs) a b = ground (
  arith,
  arith,
  differing-symmetric fs a b,
  eq_iff (asserted f a) (asserted f b),
  eq_iff (asserted f b) (asserted f a),
)

compared-matched :
    (la lb : String) (a b : Option (List (String × Option String)))
    → ((compared la lb (coerce a) (coerce b)).matched ≡ true)
      ↔ All (Agrees (coerce a) (coerce b)) compare_fields
unfolding compared coerce project differing Agrees asserted lookup
compared-matched la lb none b =
    (λ h. (inl (inl refl), (inl (inl refl), (inl (inl refl), tt))), λ h. refl)
compared-matched la lb (some a) none =
    (λ h. (inl (inr refl), (inl (inr refl), (inl (inr refl), tt))), λ h. refl)
compared-matched la lb (some a) (some b) =
    differing-none compare_fields (coerce (some a)) (coerce (some b))

-- What an answer says about agreement `P`.
unfoldable pub Decides : Bool → Type 0 → String ⊎ IdentityMatchResult → Type 0
Decides raise P (inl m) = (raise ≡ true) × ¬ P
Decides raise P (inr r) = ((r.matched ≡ true) ↔ P) × ((raise ≡ false) ⊎ P)

-- Whichever surfaces are compared and however they are labelled, a mismatch is raised only on
-- request and only if the identities disagree on a field that both assert; else the result is
-- matched exactly if they agree on every compared field.
pub detect_identity_mismatch-Decides :
    (a_label b_label : String) (raise_on_mismatch : Bool)
    (a b : Option (List (String × Option String)))
    → Decides raise_on_mismatch
        (All (Agrees (coerce a) (coerce b)) compare_fields)
        (detect_identity_mismatch a_label b_label raise_on_mismatch a b)
unfolding Decides detect_identity_mismatch
detect_identity_mismatch-Decides la lb raise a b =
    let (there, back) = compared-matched la lb a b in
    elim (Bool-cases (compared la lb (coerce a) (coerce b)).matched) [
      | inl e ↦ rw (e, detect_identity_mismatch) ((λ h. there e, λ p. refl), inr (there e))
      | inr e ↦
          rw (e, detect_identity_mismatch)
            (elim (Bool-cases raise) [
              | inl g ↦ rw (g, detect_identity_mismatch) (refl, λ p. ground (arith, e, back p))
              | inr g ↦
                  rw (g, detect_identity_mismatch)
                    ((λ h. ground arith, λ p. ground (arith, e, back p)), inl refl)
            ])
    ]
