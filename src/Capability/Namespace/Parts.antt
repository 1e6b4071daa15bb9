-- ===== src/Capability/Namespace/Parts.antt =====
-- capability/namespace.py: names as their parts, and the characters of an accepted part.
use keyhole_sdk.Base.{
  ℕ, ◌≡◌, refl, ap, Bool, true, false, List, [], ◌∷◌, ◌++◌, arith, is_empty, All, Bool-cases, inl,
  inr,
}
use keyhole_sdk.Base.Codes.{Codes, is_alnum}
use keyhole_sdk.Capability.Namespace.{
  is_dot, segment_rest, segment_matches, digits_rest, number_matches, version_matches,
  has_double_dot, starts_dot, split_dots, push,
}

abbrev pub LacksDot : Codes → Type 0
LacksDot = All (λ c. is_dot c ≡ false)

segment_rest-LacksDot : (ok : Bool) (s : Codes) → segment_rest ok s ≡ true → LacksDot s
unfolding segment_rest
segment_rest-LacksDot ok [] h = tt
segment_rest-LacksDot ok (c ∷ []) h = (ground arith, tt)
segment_rest-LacksDot ok (c ∷ d ∷ s) h =
    (ground arith, segment_rest-LacksDot (is_alnum c) (d ∷ s) (ground arith))

pub segment_matches-LacksDot : (s : Codes) → segment_matches s ≡ true → LacksDot s
unfolding segment_matches
segment_matches-LacksDot [] h = tt
segment_matches-LacksDot (c ∷ s) h = (ground arith, segment_rest-LacksDot true s (ground arith))

digits_rest-LacksDot : (s : Codes) → digits_rest s ≡ true → LacksDot s
unfolding digits_rest
digits_rest-LacksDot [] h = tt
digits_rest-LacksDot (c ∷ []) h = (ground arith, tt)
digits_rest-LacksDot (c ∷ d ∷ s) h = (ground arith, digits_rest-LacksDot (d ∷ s) (ground arith))

number_matches-LacksDot : (s : Codes) → number_matches s ≡ true → LacksDot s
unfolding number_matches
number_matches-LacksDot [] h = tt
number_matches-LacksDot (c ∷ []) h = (ground arith, tt)
number_matches-LacksDot (c ∷ d ∷ []) h = (ground arith, (unfold digits_rest in ground arith, tt))
number_matches-LacksDot (c ∷ d ∷ e ∷ s) h =
    (ground arith, digits_rest-LacksDot (d ∷ e ∷ s) (ground arith))

pub version_matches-LacksDot : (s : Codes) → version_matches s ≡ true → LacksDot s
unfolding version_matches
version_matches-LacksDot [] h = tt
version_matches-LacksDot (c ∷ s) h = (ground arith, number_matches-LacksDot s (ground arith))

-- Joining parts with dots.
unfoldable pub join_dots : List Codes → Codes
join_dots [] = []
join_dots (p ∷ []) = p
join_dots (p ∷ q ∷ ps) = p ++ 46 ∷ join_dots (q ∷ ps)

pub push-ne-nil : (c : ℕ) (ps : List Codes) → is_empty (push c ps) ≡ false
push-ne-nil c [] = refl
push-ne-nil c (p ∷ ps) = refl

pub split_dots-ne-nil : (s : Codes) → is_empty (split_dots s) ≡ false
unfolding split_dots
split_dots-ne-nil [] = refl
split_dots-ne-nil (c ∷ s) = elim (Bool-cases (is_dot c)) [
  | inl e ↦ rw (e, split_dots) refl
  | inr e ↦ rw (e, split_dots) (push-ne-nil c (split_dots s))
]

join_dots-push :
    (c : ℕ) (ps : List Codes) → is_empty ps ≡ false → join_dots (push c ps) ≡ c ∷ join_dots ps
unfolding join_dots
join_dots-push c [] h = ground arith
join_dots-push c (p ∷ []) h = refl
join_dots-push c (p ∷ q ∷ ps) h = refl

join_dots-cons : (ps : List Codes) → is_empty ps ≡ false → join_dots ([] ∷ ps) ≡ 46 ∷ join_dots ps
unfolding join_dots
join_dots-cons [] h = ground arith
join_dots-cons (p ∷ ps) h = refl

pub join_dots-split_dots : (s : Codes) → join_dots (split_dots s) ≡ s
unfolding split_dots
join_dots-split_dots [] = unfold join_dots in refl
join_dots-split_dots (c ∷ s) = ground (
  arith,
  join_dots-split_dots s,
  join_dots-push c (split_dots s),
  join_dots-cons (split_dots s),
  split_dots-ne-nil s,
)

pub split_dots_whole : (p : Codes) → LacksDot p → split_dots p ≡ p ∷ []
unfolding split_dots
split_dots_whole [] h = refl
split_dots_whole (c ∷ p) (a, h) = rw (a, split_dots) (ap (push c) (split_dots_whole p h))

pub split_dots-append : (p s : Codes) → LacksDot p → split_dots (p ++ 46 ∷ s) ≡ p ∷ split_dots s
unfolding split_dots
split_dots-append [] s h = refl
split_dots-append (c ∷ p) s (a, h) = rw (a, split_dots) (ap (push c) (split_dots-append p s h))

pub has_double_dot_whole : (p : Codes) → LacksDot p → has_double_dot p ≡ false
unfolding has_double_dot
has_double_dot_whole [] h = refl
has_double_dot_whole (c ∷ p) (a, h) = rw (a, has_double_dot) (has_double_dot_whole p h)

pub has_double_dot-append :
    (p s : Codes)
    → LacksDot p
    → starts_dot s ≡ false
    → has_double_dot s ≡ false
    → has_double_dot (p ++ 46 ∷ s) ≡ false
unfolding has_double_dot
has_double_dot-append [] s h a b = ground arith
has_double_dot-append (c ∷ p) s (d, h) a b =
    rw (d, has_double_dot) (has_double_dot-append p s h a b)

pub starts_dot-append :
    (p s : Codes) → LacksDot p → is_empty p ≡ false → starts_dot (p ++ s) ≡ false
starts_dot-append [] s h a = ground arith
starts_dot-append (c ∷ p) s (d, h) a = d

pub starts_dot-LacksDot : (p : Codes) → LacksDot p → is_empty p ≡ false → starts_dot p ≡ false
starts_dot-LacksDot [] h a = refl
starts_dot-LacksDot (c ∷ p) (d, h) a = d
