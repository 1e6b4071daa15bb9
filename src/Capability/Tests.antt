-- ===== src/Capability/Tests.antt =====
-- Capability names that are accepted, refused, corrected and created.
use keyhole_sdk.Base.{
  if◌then◌else◌, ◌+◌, ℕ, ◌≡◌, refl, Bool, true, false, ◌&&◌, ◌↔◌, List, [], ◌∷◌, leb, inl, inr, All,
  none,
}
use keyhole_sdk.Base.Codes.{Codes, codes, strip_left_codes, strip_right_codes}
use keyhole_sdk.Base.Int.{ℤ, pos, negsuc}
use keyhole_sdk.Capability.Namespace.{
  uppercase_not_allowed, invalid_segment_count, leading_zero_version, consecutive_dots,
  segment_rest, segment_matches, digits_rest, number_matches, zero_matches, version_matches,
  leading_zero_matches, has_double_dot, split_dots, add_reason, has_uppercase, check_segment,
  check_version_segment, reasons_of, validate_raw, tighten, safe_normalize, suggest_correction,
  validate_capability_name, create_capability_name,
}
use keyhole_sdk.Capability.Namespace.Accepted.{AreParts, IsCanonical, validate_raw-accepts}
use keyhole_sdk.Capability.Namespace.Creation.{create_capability_name-AreParts}

abbrev is_upper : ℕ → Bool
is_upper c = leb 65 c && leb c 90

abbrev lower : Codes → Codes
lower [] = []
lower (c ∷ s) = (if is_upper c then (c + 32) else c) ∷ lower s

-- The numbers from 0 to 9.
abbrev show : ℤ → Codes
show (pos n) = (48 + n) ∷ []
show (negsuc n) = 45 ∷ (49 + n) ∷ []

abbrev stripe : Codes
stripe = codes "payment.stripe.api-2.v1"

stripe-accepted : (validate_raw is_upper stripe).valid ≡ true
unfolding validate_raw reasons_of check_segment check_version_segment add_reason has_uppercase
    segment_matches segment_rest version_matches leading_zero_matches number_matches zero_matches
    digits_rest split_dots has_double_dot
stripe-accepted = refl

refused :
    ((validate_raw is_upper (codes "Payment.Stripe.api.v01")).reject_reasons
      ≡ uppercase_not_allowed ∷ leading_zero_version ∷ [])
    × ((validate_raw is_upper (codes "payment..v1")).reject_reasons ≡ consecutive_dots ∷ [])
    × ((validate_raw is_upper (codes "payment.v1")).reject_reasons ≡ invalid_segment_count ∷ [])
unfolding validate_raw reasons_of check_segment check_version_segment add_reason has_uppercase
    segment_matches segment_rest version_matches leading_zero_matches number_matches zero_matches
    digits_rest split_dots has_double_dot
refused = (refl, refl, refl)

-- A version of zero is accepted.
zero-accepted : (validate_raw is_upper (codes "a.b.c.v0")).valid ≡ true
unfolding validate_raw reasons_of check_segment check_version_segment add_reason has_uppercase
    segment_matches segment_rest version_matches leading_zero_matches number_matches zero_matches
    digits_rest split_dots has_double_dot
zero-accepted = refl

abcv : AreParts is_upper (codes "a") (codes "b") (codes "c") (codes "v1")
unfolding check_segment check_version_segment has_uppercase segment_matches segment_rest
    version_matches leading_zero_matches number_matches zero_matches digits_rest
abcv = record { domain_ok = refl; category_ok = refl; capability_ok = refl; version_ok = refl }

created :
    create_capability_name is_upper lower show (codes "a") (codes "b") (codes "c") (pos 1)
    ≡ inr (codes "a.b.c.v1")
created =
    (create_capability_name-AreParts is_upper lower show (codes "a") (codes "b") (codes "c") (pos 1)
        (codes "a.b.c.v1")).1
      (abcv, refl)

validate_raw-accepts_example :
    (validate_raw is_upper stripe).valid ≡ true ↔ IsCanonical is_upper stripe
validate_raw-accepts_example = validate_raw-accepts is_upper stripe

suggested :
    (validate_capability_name is_upper lower show (codes " A.b . c.v1 ")).suggestion
    ≡ codes "a.b.c.v1"
unfolding validate_capability_name suggest_correction safe_normalize tighten
    keyhole_sdk.Base.Text.is_space strip_left_codes strip_right_codes validate_raw reasons_of
    check_segment check_version_segment add_reason has_uppercase segment_matches segment_rest
    version_matches leading_zero_matches number_matches zero_matches digits_rest split_dots
    has_double_dot
suggested = refl
