-- ===== src/Base/Within.antt =====
-- Texts within a concatenation.
use Prim.Native.String.{String, [], ◌∷◌}
use Prim.Native.String.append.{nil, cons}
use Prim.Native.Char.{Char}
use mathlib.Core.Path.{◌≡◌, refl, sym, ap, ◌∙◌}
use mathlib.Core.Bool.{Bool, true, false}
use native.Mathlib.Omega.{arith}
use text.Mathlib.TextEquality.{eq_iff}
use keyhole_sdk.Base.Tests.{truthy}
use keyhole_sdk.Base.Text.{◌<>◌, is_prefix, is_within}

pub nil-append : (y : String) → [] <> y ≡ y
nil-append y = λ i. nil y i

pub cons-append : (c : Char) (x y : String) → (c ∷ x) <> y ≡ c ∷ (x <> y)
cons-append c x y = λ i. cons c x y i

is_prefix-append : (t x y : String) → is_prefix t x ≡ true → is_prefix t (x <> y) ≡ true
is_prefix-append [] x y h = refl
is_prefix-append (a ∷ t) [] y h = ground arith
is_prefix-append (a ∷ t) (b ∷ x) y h =
    ap (is_prefix (a ∷ t)) (cons-append b x y) ∙ ground (arith, is_prefix-append t x y)

is_prefix-cons :
    (t : String) (c : Char) (x y : String)
    → is_prefix t (c ∷ x) ≡ true
    → is_prefix t (c ∷ (x <> y)) ≡ true
is_prefix-cons t c x y h =
    ap (is_prefix t) (sym (cons-append c x y)) ∙ is_prefix-append t (c ∷ x) y h

is_within-empty : (y : String) → is_within [] y ≡ true
unfolding is_within
is_within-empty [] = refl
is_within-empty (c ∷ y) = refl

pub is_within-left : (t x y : String) → is_within t x ≡ true → is_within t (x <> y) ≡ true
unfolding is_within
is_within-left [] [] y h = is_within-empty ([] <> y)
is_within-left (a ∷ t) [] y h = ground arith
is_within-left t (c ∷ x) y h =
    ap (is_within t) (cons-append c x y)
    ∙ ground (arith, is_prefix-cons t c x y, is_within-left t x y)

pub is_within-right : (t x y : String) → is_within t y ≡ true → is_within t (x <> y) ≡ true
unfolding is_within
is_within-right t [] y h = ap (is_within t) (nil-append y) ∙ h
is_within-right t (c ∷ x) y h =
    ap (is_within t) (cons-append c x y) ∙ ground (arith, is_within-right t x y h)

is_prefix_self : (t : String) → is_prefix t t ≡ true
is_prefix_self [] = refl
is_prefix_self (c ∷ t) = ground (arith, is_prefix_self t)

pub is_within_self : (t : String) → is_within t t ≡ true
unfolding is_within
is_within_self [] = refl
is_within_self (c ∷ t) = ground (arith, is_prefix_self t)

abbrev is_cons : String → Bool
is_cons [] = false
is_cons (c ∷ s) = true

-- A text with something in front is not empty.
pub truthy-append : (x y : String) → truthy x ≡ true → truthy (x <> y) ≡ true
truthy-append [] y h = absurd (ground arith)
truthy-append (c ∷ x) y h = ap truthy (cons-append c x y) ∙ truthy-cons (x <> y)
  where
    no_cons : (s : String) → (c ∷ s) ≡ [] → ⊥
    no_cons s e = let clash : true ≡ false = ap is_cons e in cc clash

    truthy-cons : (s : String) → truthy (c ∷ s) ≡ true
    truthy-cons s = ground (arith, eq_iff (c ∷ s) "", no_cons s)
