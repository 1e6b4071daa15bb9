-- ===== src/Budget/Parser/Pressure.antt =====
-- budget/parser.py: what a reader can rely on in a result.
use keyhole_sdk.Base.{
  ℕ, ◌≡◌, refl, sym, ◌∙◌, String, Bool, true, false, not, ◌&&◌, ◌||◌, Option, none, some,
  Option-cases, List, [], ◌∷◌, elem, All, is_empty, truthy, str_eq, ◌==◌, if◌then◌else◌, arith,
  Bool-cases, inl, inr, eq_iff,
}
use keyhole_sdk.Base.Json.{Json, Fields, is_end}
use keyhole_sdk.Base.Text.{is_within}
use keyhole_sdk.Budget.Outcomes.{
  LimitOutcomeClass, success_with_budget_visibility, budget_exhausted, deferred, rate_limited,
  concurrency_limited, unknown_pressure, no_pressure_data, outcome_value, LimitResult, is_temporary,
  is_deferred, is_rate_limit_code, is_overload_code, family_of, classify_outcome,
}
use keyhole_sdk.Budget.Parser.{
  is_retry_safe, normalized, parse_empty, limit_result, parse_limit_outcome,
}
use keyhole_sdk.Budget.Repair.{map_budget_repair}

map_budget_repair-given :
    (c : LimitOutcomeClass) → is_empty (map_budget_repair (outcome_value c)) ≡ false
unfolding map_budget_repair
map_budget_repair-given success_with_budget_visibility = refl
map_budget_repair-given budget_exhausted = refl
map_budget_repair-given deferred = refl
map_budget_repair-given rate_limited = refl
map_budget_repair-given concurrency_limited = refl
map_budget_repair-given unknown_pressure = refl
map_budget_repair-given no_pressure_data = refl

or_list-given :
    (xs ys : List String) → is_empty ys ≡ false → is_empty (if is_empty xs then ys else xs) ≡ false
or_list-given [] ys h = h
or_list-given (x ∷ xs) ys h = refl

-- The names of the classes that may be retried, and of those that are no pressure.
abbrev pub retry_names : List String
retry_names = "deferred" ∷ "rate_limited" ∷ "concurrency_limited" ∷ []

abbrev pub calm_names : List String
calm_names = "success_with_budget_visibility" ∷ "no_pressure_data" ∷ []

-- The names that a server can send for each family.
abbrev pub exhausted_names : List String
exhausted_names =
    "budget_exhausted" ∷ "budget_exceeded" ∷ "limit_exceeded" ∷ "resource_exhausted"
    ∷ "quota_exceeded" ∷ []

abbrev pub rate_names : List String
rate_names = "rate_limited" ∷ "ratelimited" ∷ "throttled" ∷ "too_many_requests" ∷ []

abbrev pub concurrency_names : List String
concurrency_names =
    "concurrency_limited" ∷ "concurrency_exceeded" ∷ "slot_unavailable" ∷ "capacity_exceeded" ∷ []

abbrev pub deferred_names : List String
deferred_names = "deferred" ∷ "deferred_pressure" ∷ "held" ∷ "admission_held" ∷ "queue_full" ∷ []

abbrev pub named : String → Option LimitOutcomeClass
named s =
    if elem s exhausted_names
    then some budget_exhausted
    else if elem s rate_names
    then some rate_limited
    else if elem s concurrency_names
    then some concurrency_limited
    else if elem s deferred_names
    then some deferred
    else none

-- The code is the one that is named.
abbrev pub has_code : ℕ → Option ℕ → Bool
has_code n none = false
has_code n (some c) = c == n

-- The class that an answer calls for, where these tables decide it: by the code for an empty body; else
-- by the name of the limit outcome, if there is one; else by the code; else by the name of the status.
abbrev pub expected_class : Bool → String → String → Option ℕ → Option LimitOutcomeClass
expected_class true limit_outcome status code = some (
    if has_code 429 code
    then rate_limited
    else if has_code 503 code || has_code 529 code
    then deferred
    else no_pressure_data)
expected_class false limit_outcome status code =
    if truthy limit_outcome
    then named limit_outcome
    else if has_code 429 code
    then some rate_limited
    else if has_code 503 code || has_code 529 code
    then some unknown_pressure
    else named status

abbrev pub Agrees : Option LimitOutcomeClass → LimitOutcomeClass → Type 0
Agrees none c = Unit
Agrees (some e) c = c ≡ e

-- Just the classes with a name among the first three may be retried, as `is_temporary` says too, only a
-- deferral is not terminal, and pressure comes with guidance.
abbrev pub IsUsable : {F N : Type 0} → LimitResult F N → Type 0
IsUsable r =
    (r.retry_safe ≡ elem (outcome_value (r.outcome_class)) retry_names)
    × (r.retry_safe ≡ is_temporary (r.outcome_class))
    × (r.is_terminal ≡ not (str_eq (outcome_value (r.outcome_class)) "deferred"))
    × ((not (elem (outcome_value (r.outcome_class)) calm_names) && is_empty (r.repair_guidance))
        ≡ false)

and_false : (a b : Bool) → b ≡ false → (a && b) ≡ false
and_false true b h = h
and_false false b h = refl

elem-All : (P : String → Type 0) (s : String) (xs : List String) → All P xs → elem s xs ≡ true → P s
elem-All P s [] ps h = absurd (ground arith)
elem-All P s (x ∷ xs) (p, ps) h = elim (Bool-cases (str_eq s x)) [
  | inl e ↦ let same : s ≡ x = ground (arith, eq_iff s x) in coe 1 0 (i. P (same i)) p
  | inr e ↦ elem-All P s xs ps (ground arith)
]

named-family_of : (s : String) (c : LimitOutcomeClass) → named s ≡ some c → family_of s ≡ some c
unfolding family_of is_within
named-family_of s c h = elim (Bool-cases (elem s exhausted_names)) [
  | inl a ↦
      family_holds exhausted_names budget_exhausted (refl, (refl, (refl, (refl, (refl, tt))))) a
        (simp a refl)
  | inr a ↦ elim (Bool-cases (elem s rate_names)) [
    | inl b ↦
        family_holds rate_names rate_limited (refl, (refl, (refl, (refl, tt)))) b (simp (a, b) refl)
    | inr b ↦ elim (Bool-cases (elem s concurrency_names)) [
      | inl d ↦
          family_holds concurrency_names concurrency_limited (refl, (refl, (refl, (refl, tt)))) d
            (simp (a, b, d) refl)
      | inr d ↦ elim (Bool-cases (elem s deferred_names)) [
        | inl e ↦
            family_holds deferred_names deferred (refl, (refl, (refl, (refl, (refl, tt))))) e
              (simp (a, b, d, e) refl)
        | inr e ↦ let nothing : named s ≡ none = simp (a, b, d, e) refl in cc (nothing, h)
      ]
    ]
  ]
]
  where
    family_holds :
        (names : List String) (d : LimitOutcomeClass)
        → All (λ t. family_of t ≡ some d) names
        → elem s names ≡ true
        → named s ≡ some d
        → family_of s ≡ some c
    family_holds names d ps e p = elem-All (λ t. family_of t ≡ some d) s names ps e ∙ sym p ∙ h

family-Agrees :
    (s : String) (rest : LimitOutcomeClass)
    → Agrees (named s) (elim (family_of s) [ some c ↦ c | none ↦ rest ])
family-Agrees s rest = elim (Option-cases (named s)) [
  | inl e ↦ rw e tt
  | inr (c, e) ↦ rw (e, named-family_of s c e) refl
]

by_code : (code : Option ℕ) → is_rate_limit_code code ≡ has_code 429 code
by_code none = refl
by_code (some c) = refl

by_load : (code : Option ℕ) → is_overload_code code ≡ (has_code 503 code || has_code 529 code)
by_load none = refl
by_load (some c) = refl

classify_outcome-Agrees :
    (status limit_outcome : String) (code : Option ℕ) (d : Fields)
    → Agrees
        (expected_class false limit_outcome status code)
        (classify_outcome status limit_outcome code d)
unfolding classify_outcome
classify_outcome-Agrees status limit_outcome code d = elim (Bool-cases (truthy limit_outcome)) [
  | inl a ↦ simp a (family-Agrees limit_outcome _)
  | inr a ↦ elim (Bool-cases (has_code 429 code)) [
    | inl b ↦ simp (a, by_code code, b) refl
    | inr b ↦ elim (Bool-cases (has_code 503 code || has_code 529 code)) [
      | inl c ↦ simp (a, by_code code, b, by_load code, c) refl
      | inr c ↦ simp (a, by_code code, b, by_load code, c) (family-Agrees status _)
    ]
  ]
]

module _ {F N : Type 0} (show : Json → String) (to_float : Json → Option F)
    (to_int : Json → Option N) (lower : String → String) where
  -- The class is the expected one, and the result is usable.
  abbrev pub IsReported : Fields → Option ℕ → LimitResult F N → Type 0
  IsReported d code r =
      Agrees
        (expected_class (is_end d) (normalized show to_float to_int lower "limit_outcome" d)
          (normalized show to_float to_int lower "status" d) code)
        (r.outcome_class)
      × IsUsable r

  parse_empty-IsUsable :
      (code : Option ℕ) (l s run_id request_id correlation_id : String)
      → let r = parse_empty show to_float to_int lower code run_id request_id correlation_id in
        Agrees (expected_class true l s code) (r.outcome_class) × IsUsable r
  unfolding parse_empty
  parse_empty-IsUsable code l s run_id request_id correlation_id =
      elim (Bool-cases (has_code 429 code)) [
        | inl a ↦
            simp (by_code code, a) (refl, (refl, refl, refl, map_budget_repair-given rate_limited))
        | inr a ↦ elim (Bool-cases (has_code 503 code || has_code 529 code)) [
          | inl b ↦
              simp (by_code code, a, by_load code, b)
                (refl, (refl, refl, refl, map_budget_repair-given deferred))
          | inr b ↦ simp (by_code code, a, by_load code, b) (refl, (refl, refl, refl, refl))
        ]
      ]

  -- What the classes themselves say.
  class_facts :
      (c : LimitOutcomeClass)
      → (is_retry_safe show to_float to_int lower c ≡ elem (outcome_value c) retry_names)
        × (is_retry_safe show to_float to_int lower c ≡ is_temporary c)
        × (not (is_deferred c) ≡ not (str_eq (outcome_value c) "deferred"))
  class_facts success_with_budget_visibility = (refl, refl, refl)
  class_facts budget_exhausted = (refl, refl, refl)
  class_facts deferred = (refl, refl, refl)
  class_facts rate_limited = (refl, refl, refl)
  class_facts concurrency_limited = (refl, refl, refl)
  class_facts unknown_pressure = (refl, refl, refl)
  class_facts no_pressure_data = (refl, refl, refl)

  limit_result-IsUsable :
      (c : LimitOutcomeClass) (d : Fields) (run_id request_id correlation_id : String)
      → IsUsable (limit_result show to_float to_int lower c d run_id request_id correlation_id)
  unfolding limit_result
  limit_result-IsUsable c d run_id request_id correlation_id =
      let (safe, temporary, final) = class_facts c in
      (safe, temporary, final, and_false _ _ (or_list-given _ _ (map_budget_repair-given c)))

  -- Whatever a server answers: where the body is empty, or a limit outcome, the code or a status of the
  -- tables decides it, the class is the one these call for, in this order. The result calls a retry safe
  -- just for the classes named deferred, rate_limited and concurrency_limited, which are those that
  -- count as temporary; it is terminal just if the class is not deferred; and it has guidance unless the
  -- class is no pressure.
  pub parse_limit_outcome-IsReported :
      (d : Fields) (code : Option ℕ) (run_id request_id correlation_id : String)
      → IsReported d code
          (parse_limit_outcome show to_float to_int lower d code run_id request_id correlation_id)
  unfolding parse_limit_outcome
  parse_limit_outcome-IsReported d code run_id request_id correlation_id =
      let limit_outcome = normalized show to_float to_int lower "limit_outcome" d in
      let status = normalized show to_float to_int lower "status" d in
      elim (Bool-cases (is_end d)) [
        | inl a ↦
            simp a (parse_empty-IsUsable code limit_outcome status run_id request_id correlation_id)
        | inr a ↦ simp a (
          classify_outcome-Agrees status limit_outcome code d,
          limit_result-IsUsable _ d run_id request_id correlation_id,
        )
      ]
