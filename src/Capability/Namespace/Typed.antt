-- ===== src/Capability/Namespace/Typed.antt =====
-- capability/namespace.py: the parts of a name that is typed in.
-- `str.lower` and `int` of a text are parameters. A part that is no text is outside the model; the error is
-- the ValueError.
use keyhole_sdk.Base.{
  zero, suc, ◌≡◌, refl, Bool, true, false, ◌⊎◌, inl, inr, Option, none, some, absurd_left,
  right_injective,
}
use keyhole_sdk.Base.Codes.{Codes, strip_left_codes, strip_right_codes}
use keyhole_sdk.Base.Int.{ℤ, pos, negsuc}

pub data Major : Type 0 where
  number : ℤ → Major
  typed : Codes → Major

pub data MajorError : Type 0 where
  not_positive : MajorError

pub record CapabilityParts : Type 0 where
  pub domain : Codes
  pub category : Codes
  pub capability : Codes
  pub major : ℤ

abbrev pub is_positive : ℤ → Bool
is_positive (pos zero) = false
is_positive (pos (suc n)) = true
is_positive (negsuc n) = false

module _ (lower : Codes → Codes) (to_int : Codes → Option ℤ) where
  unfoldable pub normal_part : Codes → Codes
  unfolding strip_left_codes strip_right_codes
  normal_part s = lower (strip_right_codes (strip_left_codes s))

  abbrev pub int_of_major : Major → Option ℤ
  int_of_major (number n) = some n
  int_of_major (typed s) = to_int (strip_right_codes (strip_left_codes s))

  abbrev pub parts_with : Codes → Codes → Codes → Option ℤ → MajorError ⊎ CapabilityParts
  parts_with domain category capability none = inl not_positive
  parts_with domain category capability (some n) = elim (is_positive n) [
    | false ↦ inl not_positive
    | true ↦ inr (record {
      domain = normal_part domain;
      category = normal_part category;
      capability = normal_part capability;
      major = n;
    })
  ]

  unfoldable pub normalize_capability_parts :
      Codes → Codes → Codes → Major → MajorError ⊎ CapabilityParts
  unfolding normal_part
  normalize_capability_parts domain category capability major =
      parts_with domain category capability (int_of_major major)

  parts_with-positive :
      (domain category capability : Codes) (o : Option ℤ) (p : CapabilityParts)
      → parts_with domain category capability o ≡ inr p
      → is_positive (p.major) ≡ true
  parts_with-positive domain category capability none p h = absurd_left h
  parts_with-positive domain category capability (some (pos zero)) p h = absurd_left h
  parts_with-positive domain category capability (some (negsuc n)) p h = absurd_left h
  parts_with-positive domain category capability (some (pos (suc n))) p h =
      coe 0 1 (i. is_positive ((right_injective h i).major) ≡ true) refl

  -- Parts that are accepted have a positive major.
  normalize_capability_parts-positive :
      (domain category capability : Codes) (major : Major) (p : CapabilityParts)
      → normalize_capability_parts domain category capability major ≡ inr p
      → is_positive (p.major) ≡ true
  unfolding normalize_capability_parts
  normalize_capability_parts-positive domain category capability major p h =
      parts_with-positive domain category capability (int_of_major major) p h
