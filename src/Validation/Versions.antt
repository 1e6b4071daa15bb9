-- ===== src/Validation/Versions.antt =====
-- validation/compatibility.py: `_base_ver` reads the name that is made of a base and a version.
use Prim.Native.Char.{Char, code}
use keyhole_sdk.Base.{
  ℕ, ◌+◌, ◌*◌, ◌≡◌, refl, ap, ◌∙◌, String, Bool, true, false, not, ◌&&◌, Option, none, some, List,
  [], ◌∷◌, arith, ◌==◌, Option-cases, inl, inr,
}
use keyhole_sdk.Base.Text.{◌<>◌, drop_chars}
use keyhole_sdk.Base.Within.{nil-append, cons-append}
use keyhole_sdk.Validation.{number_of, digits_of, version_of, base_ver, is_empty_text}

-- A text with no newline.
abbrev pub is_line : String → Bool
is_line String.[] = true
is_line (String.◌∷◌ c s) = not (code c == 10) && is_line s

abbrev pub has_text : String → Bool
has_text String.[] = false
has_text (String.◌∷◌ c s) = true

-- The number that a list of decimal digits writes, behind a number.
abbrev pub value : ℕ → List ℕ → ℕ
value n [] = n
value n (k ∷ ks) = value (10 * n + k) ks

module _ (digit : ℕ → Option ℕ) where
  -- The characters of the text are the digits.
  abbrev pub Writes : String → List ℕ → Type 0
  Writes String.[] [] = Unit
  Writes String.[] (k ∷ ks) = ⊥
  Writes (String.◌∷◌ c s) [] = ⊥
  Writes (String.◌∷◌ c s) (k ∷ ks) = (digit (code c) ≡ some k) × Writes s ks

  number_of-value :
      (n : ℕ) (s : String) (ks : List ℕ) → Writes s ks → number_of digit n s ≡ some (value n ks)
  unfolding number_of
  number_of-value n String.[] [] h = refl
  number_of-value n String.[] (k ∷ ks) h = absurd h
  number_of-value n (String.◌∷◌ c s) [] h = absurd h
  number_of-value n (String.◌∷◌ c s) (k ∷ ks) (e, h) =
      rw (e, number_of) (number_of-value (10 * n + k) s ks h)

  digits_of-value :
      (s : String) (k : ℕ) (ks : List ℕ)
      → Writes s (k ∷ ks)
      → digits_of digit s ≡ some (value 0 (k ∷ ks))
  unfolding digits_of
  digits_of-value String.[] k ks h = absurd h
  digits_of-value (String.◌∷◌ c s) k ks (e, h) =
      let same : k ≡ 10 * 0 + k = omega arith in
      rw (e, digits_of) (number_of-value k s ks h ∙ ap (λ m. some (value m ks)) same)

  abbrev suffix : String → String
  suffix ds = String.◌∷◌ "." (String.◌∷◌ "v" ds)

  suffix_lem : (ds : String) → ".v" <> ds ≡ suffix ds
  suffix_lem ds =
      cons-append "." "v" ds
      ∙ ap (String.◌∷◌ ".") (cons-append "v" "" ds ∙ ap (String.◌∷◌ "v") (nil-append ds))

  is_empty_text-suffix : (y ds : String) → is_empty_text digit (y <> suffix ds) ≡ false
  is_empty_text-suffix String.[] ds = ap (is_empty_text digit) (nil-append (suffix ds))
  is_empty_text-suffix (String.◌∷◌ c y) ds = ap (is_empty_text digit) (cons-append c y (suffix ds))

  -- Where no version starts behind the character, the base goes on.
  base_ver-later :
      (c : Char) (s base : String) (n : ℕ)
      → (code c == 10) ≡ false
      → version_of digit s ≡ none
      → base_ver digit s ≡ some (base, n)
      → base_ver digit (String.◌∷◌ c s) ≡ some (String.◌∷◌ c String.[] <> base, n)
  unfolding base_ver
  base_ver-later c s base n l v e = rw (l, v, e) refl

  module _ (no_dot : digit 46 ≡ none) where
    number_of-dotted : (n : ℕ) (y ds : String) → number_of digit n (y <> suffix ds) ≡ none
    unfolding number_of
    number_of-dotted n String.[] ds =
        ap (number_of digit n) (nil-append (suffix ds)) ∙ rw (no_dot, number_of) refl
    number_of-dotted n (String.◌∷◌ c y) ds =
        ap (number_of digit n) (cons-append c y (suffix ds))
        ∙ elim (Option-cases (digit (code c))) [
          | inl e ↦ rw (e, number_of) (ground (arith, is_empty_text-suffix y ds))
          | inr (k, e) ↦ rw (e, number_of) (number_of-dotted (10 * n + k) y ds)
        ]

    digits_of-dotted : (y ds : String) → digits_of digit (y <> suffix ds) ≡ none
    unfolding digits_of
    digits_of-dotted String.[] ds =
        ap (digits_of digit) (nil-append (suffix ds)) ∙ rw (no_dot, digits_of) refl
    digits_of-dotted (String.◌∷◌ c y) ds =
        ap (digits_of digit) (cons-append c y (suffix ds)) ∙ elim (Option-cases (digit (code c))) [
          | inl e ↦ rw (e, digits_of) refl
          | inr (k, e) ↦ rw (e, digits_of) (number_of-dotted k y ds)
        ]

    -- Before the last ".v" no text is a version.
    version_of-early :
        (c : Char) (y ds : String) → version_of digit (String.◌∷◌ c (y <> suffix ds)) ≡ none
    unfolding version_of drop_chars
    version_of-early c String.[] ds =
        ap (λ t. version_of digit (String.◌∷◌ c t)) (nil-append (suffix ds)) ∙ ground arith
    version_of-early c (String.◌∷◌ b y) ds =
        ap (λ t. version_of digit (String.◌∷◌ c t)) (cons-append b y (suffix ds))
        ∙ ground (arith, digits_of-dotted y ds)

    version_of-last :
        (ds : String) (k : ℕ) (ks : List ℕ)
        → Writes ds (k ∷ ks)
        → version_of digit (suffix ds) ≡ some (value 0 (k ∷ ks))
    unfolding version_of drop_chars
    version_of-last ds k ks h = digits_of-value ds k ks h

    base_ver-suffix :
        (c : Char) (y ds : String) (k : ℕ) (ks : List ℕ)
        → is_line (String.◌∷◌ c y) ≡ true
        → Writes ds (k ∷ ks)
        → base_ver digit (String.◌∷◌ c (y <> suffix ds)) ≡ some (String.◌∷◌ c y, value 0 (k ∷ ks))
    unfolding base_ver
    base_ver-suffix c String.[] ds k ks l h =
        let line : (code c == 10) ≡ false = ground (arith, l) in
        ap (λ t. base_ver digit (String.◌∷◌ c t)) (nil-append (suffix ds))
        ∙ rw (line, version_of-last ds k ks h, base_ver) refl
    base_ver-suffix c (String.◌∷◌ b y) ds k ks l h =
        let line : (code c == 10) ≡ false = ground (arith, l) in
        let rest : is_line (String.◌∷◌ b y) ≡ true = ground (arith, l) in
        let joined : String.◌∷◌ c String.[] <> String.◌∷◌ b y ≡ String.◌∷◌ c (String.◌∷◌ b y) =
          cons-append c String.[] (String.◌∷◌ b y)
          ∙ ap (String.◌∷◌ c) (nil-append (String.◌∷◌ b y)) in
        ap (λ t. base_ver digit (String.◌∷◌ c t)) (cons-append b y (suffix ds))
        ∙ base_ver-later c (String.◌∷◌ b (y <> suffix ds)) _ _ line (version_of-early b y ds)
            (base_ver-suffix b y ds k ks rest h)
        ∙ ap (λ t. some (t, value 0 (k ∷ ks))) joined

  -- A name that is made of a base that is not empty and has no newline, ".v", and one or more decimal
  -- digits is read as that base and the number of the digits, where a dot is no digit.
  pub base_ver-reads :
      (base ds : String) (k : ℕ) (ks : List ℕ)
      → digit 46 ≡ none
      → has_text base ≡ true
      → is_line base ≡ true
      → Writes ds (k ∷ ks)
      → base_ver digit (base <> (".v" <> ds)) ≡ some (base, value 0 (k ∷ ks))
  base_ver-reads String.[] ds k ks no_dot t l h = cc t
  base_ver-reads (String.◌∷◌ c y) ds k ks no_dot t l h =
      ap (λ x. base_ver digit (String.◌∷◌ c y <> x)) (suffix_lem ds)
      ∙ ap (base_ver digit) (cons-append c y (suffix ds))
      ∙ base_ver-suffix no_dot c y ds k ks l h
