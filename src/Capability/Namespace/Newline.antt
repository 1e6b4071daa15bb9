-- ===== src/Capability/Namespace/Newline.antt =====
-- capability/namespace.py: what the patterns' final `$` lets through.
use keyhole_sdk.Base.{ℕ, ◌≡◌, refl, Bool, true, false, none, [], ◌∷◌, ◌++◌, arith, All}
use keyhole_sdk.Base.Codes.{Codes}
use keyhole_sdk.Capability.Namespace.{
  is_newline, at_end, has_uppercase, digits_rest, number_matches, zero_matches, version_matches,
  leading_zero_matches, check_version_segment, validate_raw, assembled,
}
use keyhole_sdk.Capability.Namespace.Accepted.{AreParts, validate_raw-assembled}

abbrev pub LacksNewline : Codes → Type 0
LacksNewline = All (λ c. is_newline c ≡ false)

abbrev pub with_newline : Codes → Codes
with_newline s = s ++ 10 ∷ []

digits_rest-with_newline :
    (s : Codes) → LacksNewline s → digits_rest (with_newline s) ≡ digits_rest s
unfolding digits_rest
digits_rest-with_newline [] h = refl
digits_rest-with_newline (c ∷ s) (a, h) = rw (a, digits_rest-with_newline s h) refl

at_end-with_newline :
    (s : Codes) → at_end s ≡ true → LacksNewline s → at_end (with_newline s) ≡ true
at_end-with_newline [] e h = refl
at_end-with_newline (c ∷ s) e (a, h) = ground arith

version_matches-with_newline :
    (v : Codes)
    → LacksNewline v
    → version_matches v ≡ true
    → version_matches (with_newline v) ≡ true
unfolding version_matches number_matches
version_matches-with_newline [] h e = ground arith
version_matches-with_newline (c ∷ []) h e = ground arith
version_matches-with_newline (c ∷ d ∷ s) (a, (b, h)) e =
    ground (arith, digits_rest-with_newline s h, at_end-with_newline s)

leading_zero_matches-with_newline :
    (v : Codes)
    → LacksNewline v
    → leading_zero_matches v ≡ false
    → leading_zero_matches (with_newline v) ≡ false
unfolding leading_zero_matches zero_matches
leading_zero_matches-with_newline [] h e = refl
leading_zero_matches-with_newline (c ∷ []) h e = ground arith
leading_zero_matches-with_newline (c ∷ d ∷ []) h e = ground arith
leading_zero_matches-with_newline (c ∷ d ∷ x ∷ s) (a, (b, (y, h))) e =
    ground (arith, digits_rest-with_newline s h)

module _ (is_upper : ℕ → Bool) where
  has_uppercase-with_newline :
      (s : Codes)
      → is_upper 10 ≡ false
      → has_uppercase is_upper (with_newline s) ≡ has_uppercase is_upper s
  unfolding has_uppercase
  has_uppercase-with_newline [] u = rw u refl
  has_uppercase-with_newline (c ∷ s) u = rw (has_uppercase-with_newline s u) refl

  check_version_segment-with_newline :
      (v : Codes)
      → is_upper 10 ≡ false
      → LacksNewline v
      → check_version_segment is_upper v ≡ none
      → check_version_segment is_upper (with_newline v) ≡ none
  unfolding check_version_segment
  check_version_segment-with_newline [] u h e = ground arith
  check_version_segment-with_newline (c ∷ v) u h e = ground (
    arith,
    has_uppercase-with_newline (c ∷ v) u,
    version_matches-with_newline (c ∷ v) h,
    leading_zero_matches-with_newline (c ∷ v) h,
  )

  -- An accepted name whose version has no newline is accepted with a newline put behind it too.
  validate_raw-with_newline :
      (d c k v : Codes)
      → is_upper 10 ≡ false
      → AreParts is_upper d c k v
      → LacksNewline v
      → (validate_raw is_upper (assembled d c k (with_newline v))).valid ≡ true
  validate_raw-with_newline d c k v u p h =
      validate_raw-assembled is_upper d c k (with_newline v) (record {
        domain_ok = p.domain_ok;
        category_ok = p.category_ok;
        capability_ok = p.capability_ok;
        version_ok = check_version_segment-with_newline v u h (p.version_ok);
      })
