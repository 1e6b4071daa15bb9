-- ===== src/Capability/Namespace.antt =====
-- capability/namespace.py: the contract of capability names, `<domain>.<category>.<capability>.v<n>`.
-- A name is a list of code points. `str.isupper` of a character, `str.lower` and `str` of a number are
-- parameters. The two patterns are their automata: `$` holds at the end and before a final newline.
-- The messages are left out; a name that is no text is outside the model.
pub mod Parts
pub mod Accepted
pub mod Creation
pub mod Newline
pub mod Typed
use keyhole_sdk.Base.{
  ℕ, String, Bool, true, false, not, ◌&&◌, ◌||◌, Option, none, some, List, [], ◌∷◌, ◌++◌, ◌⊎◌, inl,
  inr, is_empty, str_eq, ◌==◌, leb, if◌then◌else◌,
}
use keyhole_sdk.Base.Codes.{
  Codes, codes, same_codes, is_digit, is_alnum, strip_left_codes, strip_right_codes,
}
use keyhole_sdk.Base.Int.{ℤ}
use keyhole_sdk.Base.Text.{is_space}

pub data NamespaceRejectReason : Type 0 where
  invalid_segment_count invalid_version_suffix uppercase_not_allowed empty_namespace_segment
        illegal_character leading_zero_version consecutive_dots :
      NamespaceRejectReason

abbrev pub reason_value : NamespaceRejectReason → String
reason_value invalid_segment_count = "invalid_segment_count"
reason_value invalid_version_suffix = "invalid_version_suffix"
reason_value uppercase_not_allowed = "uppercase_not_allowed"
reason_value empty_namespace_segment = "empty_namespace_segment"
reason_value illegal_character = "illegal_character"
reason_value leading_zero_version = "leading_zero_version"
reason_value consecutive_dots = "consecutive_dots"

pub record CapabilityValidationResult : Type 0 where
  pub name : Codes
  pub valid : Bool
  pub reject_reasons : List NamespaceRejectReason
  pub suggestion : Codes
  pub normalized : Codes

abbrev pub is_dot : ℕ → Bool
is_dot c = c == 46

abbrev pub is_newline : ℕ → Bool
is_newline c = c == 10

-- `[a-z0-9\-]`
abbrev pub is_word : ℕ → Bool
is_word c = is_alnum c || c == 45

-- The rest of a segment; `ok` is whether it may end here, since the last character is no hyphen.
unfoldable pub segment_rest : Bool → Codes → Bool
segment_rest ok [] = ok
segment_rest ok (c ∷ s) =
    let rest = segment_rest (is_alnum c) s in
    (ok && is_newline c && is_empty s) || (is_word c && rest)

-- `_SEGMENT_RE.match(s)`
unfoldable pub segment_matches : Codes → Bool
unfolding segment_rest
segment_matches [] = false
segment_matches (c ∷ s) = is_alnum c && segment_rest true s

-- `[0-9]*$`
unfoldable pub digits_rest : Codes → Bool
digits_rest [] = true
digits_rest (c ∷ s) =
    let rest = digits_rest s in (is_newline c && is_empty s) || (is_digit c && rest)

abbrev pub at_end : Codes → Bool
at_end [] = true
at_end (c ∷ s) = is_newline c && is_empty s

unfoldable pub number_matches : Codes → Bool
unfolding digits_rest
number_matches [] = false
number_matches (c ∷ s) = if c == 48 then at_end s else is_digit c && digits_rest s

unfoldable pub zero_matches : Codes → Bool
unfolding digits_rest
zero_matches (c ∷ d ∷ s) = c == 48 && is_digit d && digits_rest s
zero_matches _ = false

-- `_VERSION_RE.match(s)`
unfoldable pub version_matches : Codes → Bool
unfolding number_matches
version_matches [] = false
version_matches (c ∷ s) = c == 118 && number_matches s

-- `_VERSION_NO_LEADING_ZERO_RE.match(s)`
unfoldable pub leading_zero_matches : Codes → Bool
unfolding zero_matches
leading_zero_matches [] = false
leading_zero_matches (c ∷ s) = c == 118 && zero_matches s

abbrev pub starts_dot : Codes → Bool
starts_dot [] = false
starts_dot (d ∷ t) = is_dot d

-- `".." in name`
unfoldable pub has_double_dot : Codes → Bool
has_double_dot [] = false
has_double_dot (c ∷ s) = let rest = has_double_dot s in (is_dot c && starts_dot s) || rest

abbrev pub push : ℕ → List Codes → List Codes
push c [] = (c ∷ []) ∷ []
push c (p ∷ ps) = (c ∷ p) ∷ ps

-- `name.split(".")`
unfoldable pub split_dots : Codes → List Codes
split_dots [] = [] ∷ []
split_dots (c ∷ s) = let rest = split_dots s in if is_dot c then [] ∷ rest else push c rest

-- `reason not in reasons`, turned round.
abbrev pub has_reason : NamespaceRejectReason → List NamespaceRejectReason → Bool
has_reason r [] = false
has_reason r (x ∷ xs) = str_eq (reason_value r) (reason_value x) || has_reason r xs

unfoldable pub add_reason :
    List NamespaceRejectReason → Option NamespaceRejectReason → List NamespaceRejectReason
add_reason reasons none = reasons
add_reason reasons (some r) = if has_reason r reasons then reasons else reasons ++ r ∷ []

module _ (is_upper : ℕ → Bool) where
  unfoldable pub has_uppercase : Codes → Bool
  has_uppercase [] = false
  has_uppercase (c ∷ s) = is_upper c || has_uppercase s

  unfoldable pub check_segment : Codes → Option NamespaceRejectReason
  unfolding has_uppercase segment_matches
  check_segment seg =
      if is_empty seg
      then some empty_namespace_segment
      else if has_uppercase seg
      then some uppercase_not_allowed
      else if not (segment_matches seg)
      then some illegal_character
      else none

  unfoldable pub check_version_segment : Codes → Option NamespaceRejectReason
  unfolding has_uppercase version_matches leading_zero_matches
  check_version_segment seg =
      if is_empty seg
      then some empty_namespace_segment
      else if has_uppercase seg
      then some uppercase_not_allowed
      else if leading_zero_matches seg
      then some leading_zero_version
      else if not (version_matches seg)
      then some invalid_version_suffix
      else none

  abbrev pub verdict_on : Codes → List NamespaceRejectReason → CapabilityValidationResult
  verdict_on name reasons = record {
    name = name;
    valid = is_empty reasons;
    reject_reasons = reasons;
    suggestion = [];
    normalized = if is_empty reasons then name else [];
  }

  unfoldable pub reasons_of : List Codes → List NamespaceRejectReason
  unfolding check_segment check_version_segment add_reason
  reasons_of (d ∷ c ∷ k ∷ v ∷ []) =
      add_reason
        (add_reason (add_reason (add_reason [] (check_segment d)) (check_segment c))
          (check_segment k))
        (check_version_segment v)
  reasons_of _ = invalid_segment_count ∷ []

  unfoldable pub validate_raw : Codes → CapabilityValidationResult
  unfolding reasons_of has_double_dot split_dots
  validate_raw name =
      verdict_on name
        (if has_double_dot name then consecutive_dots ∷ [] else reasons_of (split_dots name))

-- `re.sub(r"\s*\.\s*", ".", name)`, from the right: the rest has no space around its dots.
unfoldable pub tighten : Codes → Codes
unfolding strip_left_codes
tighten [] = []
tighten (c ∷ s) =
    let rest = tighten s in
    if is_dot c
    then c ∷ strip_left_codes rest
    else if is_space c && starts_dot rest
    then rest
    else c ∷ rest

-- `f"{domain}.{category}.{capability}.{version}"`
abbrev pub assembled : Codes → Codes → Codes → Codes → Codes
assembled d c k v = d ++ (46 ∷ (c ++ (46 ∷ (k ++ (46 ∷ v)))))

module _ (is_upper : ℕ → Bool) (lower : Codes → Codes) (show : ℤ → Codes) where
  unfoldable pub safe_normalize : Codes → Codes
  unfolding tighten strip_left_codes strip_right_codes
  safe_normalize name = lower (tighten (strip_right_codes (strip_left_codes name)))

  unfoldable pub suggest_correction : Codes → Codes
  unfolding safe_normalize validate_raw
  suggest_correction name =
      let normalized = safe_normalize name in
      if is_empty normalized
      then []
      else if (validate_raw is_upper normalized).valid && not (same_codes normalized name)
      then normalized
      else []

  unfoldable pub validate_capability_name : Codes → CapabilityValidationResult
  unfolding validate_raw suggest_correction
  validate_capability_name name =
      let result = validate_raw is_upper name in
      if result.valid
      then result
      else (record result { suggestion = suggest_correction name; normalized = [] })

  -- The reasons stand for the CapabilityNameError that carries them.
  unfoldable pub create_capability_name :
      Codes → Codes → Codes → ℤ → List NamespaceRejectReason ⊎ Codes
  unfolding validate_capability_name
  create_capability_name domain category capability major =
      let name = assembled domain category capability (118 ∷ show major) in
      let result = validate_capability_name name in
      if result.valid then inr name else inl (result.reject_reasons)
