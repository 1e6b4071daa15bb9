-- ===== src/Alignment.antt =====
-- alignment/ranker.py and the items of alignment/models.py: the ranking of guidance, the posture that
-- it gives and the next action. A confidence is a whole number
-- of equal parts; titles, details and sources are left out, and `list.sort` is a stable insertion.
pub mod Posture
mod Tests
use keyhole_sdk.Base.{
  ℕ, ◌+◌, String, Bool, true, false, not, ◌&&◌, ◌||◌, Option, none, some, List, [], ◌∷◌, is_empty,
  length, filter, ltb, ◌==◌, str_eq, if◌then◌else◌,
}
use Prim.Native.Nat.{Ordering}
use Prim.Native.String.{compare}

pub data GuidanceClass : Type 0 where
  gap warning suggestion next_best_action inference : GuidanceClass

pub data GuidanceSeverity : Type 0 where
  high medium low info : GuidanceSeverity

pub data GuidanceState : Type 0 where
  verified inferred : GuidanceState

pub data AlignmentReadiness : Type 0 where
  foreign partially_aligned registration_ready run_ready blocked : AlignmentReadiness

pub record GuidanceItem : Type 0 where
  pub id : String
  pub guidance_class : GuidanceClass
  pub severity : GuidanceSeverity
  pub confidence : ℕ
  pub state : GuidanceState
  pub repair : List String

abbrev pub class_order : GuidanceClass → ℕ
class_order gap = 0
class_order warning = 1
class_order suggestion = 2
class_order next_best_action = 3
class_order inference = 4

abbrev pub state_order : GuidanceState → ℕ
state_order verified = 0
state_order inferred = 1

abbrev pub severity_order : GuidanceSeverity → ℕ
severity_order high = 0
severity_order medium = 1
severity_order low = 2
severity_order info = 3

-- `s <= t` on texts.
abbrev text_le : String → String → Bool
text_le s t = elim (compare s t) [ Ordering.gt ↦ false | _ ↦ true ]

-- `x <= y` on a part of a key, where `rest` compares the parts after it.
abbrev then_by : ℕ → ℕ → Bool → Bool
then_by a b rest = if ltb a b then true else if a == b then rest else false

-- `x.sort_key() <= y.sort_key()`
unfoldable pub key_le : GuidanceItem → GuidanceItem → Bool
key_le x y = then_by (class_order x.guidance_class) (class_order y.guidance_class) (
    then_by (state_order x.state) (state_order y.state) (
      then_by (severity_order x.severity) (severity_order y.severity)
        (then_by y.confidence x.confidence (text_le x.id y.id))))

unfoldable pub insert_item : GuidanceItem → List GuidanceItem → List GuidanceItem
unfolding key_le
insert_item x [] = x ∷ []
insert_item x (y ∷ ys) = let rest = insert_item x ys in if key_le x y then x ∷ y ∷ ys else y ∷ rest

unfoldable pub sort_items : List GuidanceItem → List GuidanceItem
unfolding insert_item
sort_items [] = []
sort_items (x ∷ xs) = insert_item x (sort_items xs)

abbrev pub is_gap : GuidanceItem → Bool
is_gap x = elim (x.guidance_class) [ gap ↦ true | _ ↦ false ]

abbrev pub is_warning : GuidanceItem → Bool
is_warning x = elim (x.guidance_class) [ warning ↦ true | _ ↦ false ]

abbrev pub is_suggestion : GuidanceItem → Bool
is_suggestion x = elim (x.guidance_class) [ suggestion ↦ true | _ ↦ false ]

abbrev pub is_verified : GuidanceItem → Bool
is_verified x = elim (x.state) [ verified ↦ true | _ ↦ false ]

abbrev pub is_inferred : GuidanceItem → Bool
is_inferred x = not (is_verified x)

abbrev pub is_high : GuidanceItem → Bool
is_high x = elim (x.severity) [ high ↦ true | _ ↦ false ]

-- A class that does not stand against registration.
abbrev pub is_mild : GuidanceItem → Bool
is_mild x = elim (x.guidance_class) [
  | warning ↦ true
  | suggestion ↦ true
  | inference ↦ true
  | gap ↦ false
  | next_best_action ↦ false
]

abbrev pub all_mild : List GuidanceItem → Bool
all_mild [] = true
all_mild (x ∷ xs) = if is_mild x then all_mild xs else false

unfoldable pub derive_readiness : List GuidanceItem → AlignmentReadiness
derive_readiness items =
    let verified_gaps = filter (λ x. is_verified x && is_gap x) items in
    if not (is_empty (filter is_high verified_gaps))
    then blocked
    else if not (is_empty verified_gaps)
    then partially_aligned
    else if is_empty (filter is_verified items) && not (is_empty items)
    then foreign
    else if is_empty items
    then foreign
    else if all_mild items
    then registration_ready
    else run_ready

abbrev readiness_action : AlignmentReadiness → String
readiness_action foreign =
    "This repo is still foreign. Complete registration readiness before governed run attempts."
readiness_action partially_aligned = "Resolve verified gaps before attempting governed runs."
readiness_action blocked = "Resolve all HIGH-severity verified gaps before proceeding."
readiness_action registration_ready = "Run keyhole repo register to complete governed registration."
readiness_action run_ready = "Run keyhole run --context auto to begin a governed execution."

unfoldable pub select_next_best_action : List GuidanceItem → AlignmentReadiness → String
select_next_best_action [] readiness = readiness_action readiness
select_next_best_action (x ∷ xs) readiness = elim (x.repair) [
  | [] ↦ select_next_best_action xs readiness
  | step ∷ steps ↦ step
]

pub record AlignmentGuidanceResult : Type 0 where
  pub readiness : AlignmentReadiness
  pub items : List GuidanceItem
  pub next_action : String
  pub verified_count : ℕ
  pub inferred_count : ℕ
  pub gap_count : ℕ
  pub warning_count : ℕ
  pub suggestion_count : ℕ

unfoldable pub render_guidance : List GuidanceItem → AlignmentGuidanceResult
unfolding sort_items derive_readiness select_next_best_action
render_guidance given =
    let items = sort_items given in
    record {
      readiness = derive_readiness items;
      items = items;
      next_action = select_next_best_action items (derive_readiness items);
      verified_count = length (filter is_verified items);
      inferred_count = length (filter is_inferred items);
      gap_count = length (filter is_gap items);
      warning_count = length (filter is_warning items);
      suggestion_count = length (filter is_suggestion items);
    }
