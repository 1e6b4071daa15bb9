-- ===== src/Runs/Status/Verdict.antt =====
-- run_lifecycle/status.py: which answers are taken as a status.
use keyhole_sdk.Base.{
  ℕ, ◌≡◌, ◌↔◌, refl, sym, ap, ◌∙◌, String, true, false, ◌⊎◌, inl, inr, none, some, is_some, leb,
  arith, Bool-cases, Option-cases, Sum-cases,
}
use keyhole_sdk.Base.Json.{Json, Fields, get_field}
use keyhole_sdk.Runs.{unknown, RunStatusResult}
use keyhole_sdk.Runs.Status.{
  safe_dict, is_false, product_error, classify_status_result, resolved_result,
  handle_status_exception, fetch_run_status, status_request,
}

-- No error code, and no `ok` that is false, outside or in the data.
abbrev pub IsGood : ℕ → Fields → Type 0
IsGood code d =
    (leb 400 code ≡ false)
    × (is_false (get_field "ok" d) ≡ false)
    × (is_false (get_field "ok" (safe_dict (get_field "data" d))) ≡ false)

-- What the transport gave is an answer, and a good one.
abbrev pub IsAnswered : (String × String) ⊎ (ℕ × Fields) → Type 0
IsAnswered (inl e) = ⊥
IsAnswered (inr (code, d)) = IsGood code d

absurd_some : {A : Type 0} {f : Fields} → some f ≡ none → A
absurd_some e = ground arith

absurd_bool : {A : Type 0} → false ≡ true → A
absurd_bool e = ground arith

product_error-none :
    (d nested : Fields)
    → product_error d nested ≡ none
    → (is_false (get_field "ok" d) ≡ false) × (is_false (get_field "ok" nested) ≡ false)
unfolding product_error
product_error-none d nested h = elim (Bool-cases (is_false (get_field "ok" d))) [
  | inl a ↦ absurd_bool (sym (ap is_some h) ∙ rw (a, product_error) refl)
  | inr a ↦ elim (Bool-cases (is_false (get_field "ok" nested))) [
    | inl b ↦ absurd_bool (sym (ap is_some h) ∙ rw (a, b, product_error) refl)
    | inr b ↦ (a, b)
  ]
]

product_error_lem :
    (d nested : Fields)
    → is_false (get_field "ok" d) ≡ false
    → is_false (get_field "ok" nested) ≡ false
    → product_error d nested ≡ none
unfolding product_error
product_error_lem d nested a b = rw (a, b, product_error) refl

module _ (lower : String → String) (show : ℕ → String) where
  -- It is a success just when the answer is good; else the status is unknown.
  abbrev pub Verdict : Type 0 → RunStatusResult Fields → Type 0
  Verdict Good r = (r.ok ≡ true ↔ Good) × (r.ok ≡ false → r.status ≡ unknown)

  classify_status_result-Verdict :
      (code : ℕ) (d : Fields) (run_id : String) (repo_name : Json)
      → Verdict (IsGood code d) (classify_status_result lower show code d run_id repo_name)
  unfolding classify_status_result resolved_result
  classify_status_result-Verdict code d run_id repo_name =
      let nested = safe_dict (get_field "data" d) in
      elim (Bool-cases (leb 400 code)) [
        | inl a ↦ simp a ((λ e. absurd_bool e, λ g. absurd_bool (sym (g.0))), λ e. refl)
        | inr a ↦ elim (Option-cases (product_error d nested)) [
          | inl p ↦
              simp (a, p)
                (
                  (λ e. let (x, y) = product_error-none d nested p in (refl, x, y), λ g. refl),
                  λ e. absurd_bool (sym e),
                )
          | inr (f, p) ↦
              simp (a, p)
                (
                  (
                    λ e. absurd_bool e,
                    λ (_, x, y). absurd_some (sym p ∙ product_error_lem d nested x y),
                  ),
                  λ e. refl,
                )
        ]
      ]

  -- A query succeeds just when the transport answers, with a status code below 400, and neither the
  -- answer nor its data says that `ok` is false; a query that does not succeed has an unknown status.
  pub fetch_run_status-Verdict :
      {W : Type 0} (execute : Json → W → W × ((String × String) ⊎ (ℕ × Fields)))
      → (run_id : String) (repo_name : Json) (w : W)
      → Verdict
          (IsAnswered ((execute (status_request lower show run_id) w).1))
          ((fetch_run_status lower show execute run_id repo_name w).1)
  unfolding fetch_run_status handle_status_exception
  fetch_run_status-Verdict execute run_id repo_name w =
      elim (Sum-cases ((execute (status_request lower show run_id) w).1)) [
        | inl (e, a) ↦ simp a ((λ h. absurd_bool h, λ b. elim b [ ]), λ h. refl)
        | inr (x, a) ↦ simp a (classify_status_result-Verdict x.0 x.1 run_id repo_name)
      ]
