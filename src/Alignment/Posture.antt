-- ===== src/Alignment/Posture.antt =====
-- alignment/ranker.py: the posture of a repository, by the items that there are.
use keyhole_sdk.Base.{
  ℕ, ◌+◌, ◌≡◌, refl, Bool, true, false, not, ◌&&◌, ◌||◌, List, [], ◌∷◌, arith, is_empty, length,
  filter, Bool-cases, inl, inr, if◌then◌else◌,
}
use keyhole_sdk.Alignment.{
  GuidanceItem, foreign, partially_aligned, registration_ready, run_ready, blocked, key_le,
  insert_item, sort_items, is_gap, is_warning, is_suggestion, is_verified, is_inferred, is_high,
  is_mild, all_mild, derive_readiness, render_guidance,
}

-- Whether some item passes the test.
abbrev pub any : (GuidanceItem → Bool) → List GuidanceItem → Bool
any p [] = false
any p (x ∷ xs) = p x || any p xs

-- How many items pass the test.
abbrev pub count : (GuidanceItem → Bool) → List GuidanceItem → ℕ
count p xs = length (filter p xs)

bit : Bool → ℕ
bit true = 1
bit false = 0

count-cons :
    (p : GuidanceItem → Bool) (x : GuidanceItem) (xs : List GuidanceItem)
    → count p (x ∷ xs) ≡ bit (p x) + count p xs
unfolding bit
count-cons p x xs = ground arith

count-insert_item :
    (p : GuidanceItem → Bool) (x : GuidanceItem) (xs : List GuidanceItem)
    → count p (insert_item x xs) ≡ count p (x ∷ xs)
unfolding insert_item
count-insert_item p x [] = refl
count-insert_item p x (y ∷ ys) = elim (Bool-cases (key_le x y)) [
  | inl e ↦ rw (e, insert_item) refl
  | inr e ↦
      rw (e, insert_item)
        (omega (
          arith,
          count-cons p y (insert_item x ys),
          count-cons p x (y ∷ ys),
          count-cons p y ys,
          count-cons p x ys,
          count-insert_item p x ys,
        ))
]

count-sort_items :
    (p : GuidanceItem → Bool) (xs : List GuidanceItem) → count p (sort_items xs) ≡ count p xs
unfolding sort_items
count-sort_items p [] = refl
count-sort_items p (x ∷ xs) = omega (
  arith,
  count-insert_item p x (sort_items xs),
  count-sort_items p xs,
  count-cons p x xs,
  count-cons p x (sort_items xs),
)

count-any :
    (p : GuidanceItem → Bool) (xs : List GuidanceItem) → is_empty (filter p xs) ≡ not (any p xs)
count-any p [] = refl
count-any p (x ∷ xs) = ground (arith, count-any p xs)

filter-high :
    (xs : List GuidanceItem)
    → is_empty (filter is_high (filter (λ x. is_verified x && is_gap x) xs))
      ≡ not (any (λ x. is_verified x && is_gap x && is_high x) xs)
filter-high [] = refl
filter-high (x ∷ xs) = ground (arith, filter-high xs)

any-none : (xs : List GuidanceItem) → any (λ x. not (is_mild x)) xs ≡ not (all_mild xs)
any-none [] = refl
any-none (x ∷ xs) = ground (arith, any-none xs)

-- The posture by what items there are: a severe verified gap blocks; a verified gap aligns partly;
-- without a verified item it is foreign; with verified items and no verified gap it is ready for
-- registration where every item is a warning, a suggestion or an inference, and ready to run only
-- where another item, such as an inferred gap, is there too.
derive_readiness_lem :
    (items : List GuidanceItem)
    → derive_readiness items ≡ (
        if any (λ x. is_verified x && is_gap x && is_high x) items
        then blocked
        else if any (λ x. is_verified x && is_gap x) items
        then partially_aligned
        else if not (any is_verified items)
        then foreign
        else if any (λ x. not (is_mild x)) items
        then run_ready
        else registration_ready)
unfolding derive_readiness
derive_readiness_lem [] = refl
derive_readiness_lem (x ∷ xs) = ground (
  arith,
  filter-high (x ∷ xs),
  count-any (λ y. is_verified y && is_gap y) (x ∷ xs),
  count-any is_verified (x ∷ xs),
  any-none (x ∷ xs),
)

-- The ranking drops and repeats no item of a kind: each count that is reported is that of the items
-- as they were given.
render_guidance_counts :
    (items : List GuidanceItem)
    → ((render_guidance items).verified_count ≡ count is_verified items)
      × ((render_guidance items).inferred_count ≡ count is_inferred items)
      × ((render_guidance items).gap_count ≡ count is_gap items)
      × ((render_guidance items).warning_count ≡ count is_warning items)
      × ((render_guidance items).suggestion_count ≡ count is_suggestion items)
unfolding render_guidance
render_guidance_counts items = (
  count-sort_items is_verified items,
  count-sort_items is_inferred items,
  count-sort_items is_gap items,
  count-sort_items is_warning items,
  count-sort_items is_suggestion items,
)
