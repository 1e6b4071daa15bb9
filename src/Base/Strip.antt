-- ===== src/Base/Strip.antt =====
-- `str.strip` leaves no space at either end, so that it does nothing more a second time.
use Prim.Native.Char.{Char, code}
use Prim.Native.String.{String, [], ◌∷◌}
use mathlib.Core.Path.{◌≡◌, refl, ap, ◌∙◌, sym}
use mathlib.Core.Logic.{◌⊎◌, inl, inr}
use mathlib.Core.Bool.{true, false, ◌&&◌, not}
use keyhole_sdk.Base.Tests.{Bool-cases, truthy}
use keyhole_sdk.Base.Text.{is_space, strip_left, strip_right, strip}

strip_right-strip_right : (s : String) → strip_right (strip_right s) ≡ strip_right s
unfolding strip_right
strip_right-strip_right [] = refl
strip_right-strip_right (c ∷ s) =
    elim (Bool-cases (is_space (code c) && not (truthy (strip_right s)))) [
      | inl e ↦ simp e refl
      | inr e ↦ simp (e, strip_right-strip_right s) refl
    ]

-- The text is empty or starts with no space.
abbrev StartsWell : String → Type 0
StartsWell t = (t ≡ []) ⊎ ((c : Char) × (s : String) × (t ≡ c ∷ s) × (is_space (code c) ≡ false))

strip_left-StartsWell : (s : String) → StartsWell (strip_left s)
unfolding strip_left
strip_left-StartsWell [] = inl refl
strip_left-StartsWell (c ∷ s) = elim (Bool-cases (is_space (code c))) [
  | inl e ↦ coe 0 1 (i. StartsWell (sym (step e) i)) (strip_left-StartsWell s)
  | inr e ↦ inr (c, s, kept e, e)
]
  where
    step : is_space (code c) ≡ true → strip_left (c ∷ s) ≡ strip_left s
    step e = simp e refl

    kept : is_space (code c) ≡ false → strip_left (c ∷ s) ≡ c ∷ s
    kept e = simp e refl

strip_left-fixed : (t : String) → StartsWell t → strip_left (strip_right t) ≡ strip_right t
unfolding strip_left strip_right
strip_left-fixed t (inl e) = rw e refl
strip_left-fixed t (inr (c, s, e, h)) = rw e (simp h refl)

pub strip-strip : (s : String) → strip (strip s) ≡ strip s
unfolding strip
strip-strip s =
    ap (λ t. strip_right t) (strip_left-fixed (strip_left s) (strip_left-StartsWell s))
    ∙ strip_right-strip_right (strip_left s)
