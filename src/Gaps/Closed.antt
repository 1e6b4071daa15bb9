-- ===== src/Gaps/Closed.antt =====
-- gap_closure.py: what the checks let pass.
use keyhole_sdk.Base.{
  ℕ, ◌≡◌, refl, String, true, false, ◌⊎◌, inl, inr, ◌↔◌, Option, none, some, List, [], ◌∷◌, elem,
  arith, eq_iff, is_empty,
}
use keyhole_sdk.Base.Json.{Fields, get_json, truthy_json}
use keyhole_sdk.Gaps.{
  Failure, acceptable_event_spine_status, unwrap, is_null, spine_status, spine_limit,
  unpersisted_count, assert_event_spine_safe, gap_status, gap_id_of, assert_gap_open_for_closure,
  missing_fields,
}
use keyhole_sdk.Gaps.Client.{
  Session, Preflight, preflight, get_health, get_gap, unless, checked_gap, after_check,
  checked_health,
}

-- The health answer that a closure may follow.
abbrev pub IsSafe : (String → Option ℕ) → Fields → Type 0
IsSafe to_int health =
    (elem (spine_status to_int health) acceptable_event_spine_status ≡ true)
    × ((spine_limit to_int health ≡ 0) ⊎ (spine_limit to_int health ≡ 1000000))
    × (unpersisted_count to_int health ≡ 0)

-- The answer about a gap that may be closed.
abbrev pub IsOpen : (String → String) → String → Fields → Type 0
IsOpen upper gap_id gap =
    let d = unwrap gap in
    (elem (gap_id_of d) ("" ∷ gap_id ∷ []) ≡ true)
    × (gap_status upper d ≡ "OPEN")
    × (is_null (get_json "closed_ts" d) ≡ true)
    × (is_null (get_json "close_verdict_ref" d) ≡ true)
    × (truthy_json (get_json "convergence_closure_lineage" d) ≡ false)

assert_event_spine_safe-IsSafe :
    (to_int : String → Option ℕ) (health : Fields)
    → (assert_event_spine_safe to_int health ≡ none) ↔ IsSafe to_int health
unfolding assert_event_spine_safe
assert_event_spine_safe-IsSafe to_int health =
    (λ h. (ground arith, ground arith, ground arith), λ h. let (a, b, c) = h in ground arith)

assert_gap_open_for_closure-IsOpen :
    (upper : String → String) (gap_id : String) (gap : Fields)
    → (assert_gap_open_for_closure upper gap gap_id ≡ none) ↔ IsOpen upper gap_id gap
unfolding assert_gap_open_for_closure
assert_gap_open_for_closure-IsOpen upper gap_id gap = (
  λ h. (
    ground arith,
    ground (arith, eq_iff (gap_status upper (unwrap gap)) "OPEN"),
    ground arith,
    ground arith,
    ground arith,
  ),
  λ h. let (a, b, c, d, e) = h in ground (arith, eq_iff (gap_status upper (unwrap gap)) "OPEN"),
)

missing_fields-none :
    (d : Fields) (name : String) (names : List String)
    → is_empty (missing_fields d (name ∷ names)) ≡ true
    → truthy_json (get_json name d) ≡ true
unfolding missing_fields
missing_fields-none d name names h = ground arith

-- What an answer about the gap is made: an error, or the two answers, the second about an open gap.
abbrev pub GapVerdict :
    (String → String) → String → Fields → Failure ⊎ Fields → Failure ⊎ Preflight → Type 0
GapVerdict upper gap_id health r result =
    ((e : Failure) × (result ≡ inl e))
    ⊎ ((gap : Fields) × (r ≡ inr gap)
        × IsOpen upper gap_id gap
        × (result ≡ inr (record { event_spine = health; target_gap = gap })))

checked_gap-GapVerdict :
    (upper : String → String) (gap_id : String) (health : Fields) (r : Failure ⊎ Fields)
    → GapVerdict upper gap_id health r (checked_gap upper gap_id health r)
checked_gap-GapVerdict upper gap_id health (inl e) = inl (e, refl)
checked_gap-GapVerdict upper gap_id health (inr gap) =
    by_check (assert_gap_open_for_closure upper gap gap_id)
      ((assert_gap_open_for_closure-IsOpen upper gap_id gap).0)
  where
    by_check :
        (c : Option Failure)
        → (c ≡ none → IsOpen upper gap_id gap)
        → GapVerdict upper gap_id health
            (inr gap)
            (unless c (record { event_spine = health; target_gap = gap }))
    by_check none f = inr (gap, refl, f refl, refl)
    by_check (some e) f = inl (e, refl)

module _ {W : Type 0} (session : Session W) (mcp_url token : String) (upper : String → String)
    (to_int : String → Option ℕ) where
  -- The second request of a preflight that comes from the world `w`, and what it ends with.
  abbrev pub IsSecond : String → Fields → W → W × (Failure ⊎ Preflight) → Type 0
  IsSecond gap_id health w end =
      let r = get_gap session mcp_url token gap_id w in
      (end.0 ≡ r.0) × GapVerdict upper gap_id health (r.1) (end.1)

  abbrev pub PreflightVerdict : String → W × (Failure ⊎ Fields) → W × (Failure ⊎ Preflight) → Type 0
  PreflightVerdict gap_id r end =
      ((e : Failure) × (end ≡ (r.0, inl e)))
      ⊎ ((health : Fields) × (r.1 ≡ inr health)
          × IsSafe to_int health
          × IsSecond gap_id health (r.0) end)

  checked_health-PreflightVerdict :
      (gap_id : String) (w : W) (r : Failure ⊎ Fields)
      → PreflightVerdict gap_id
          (w, r)
          (checked_health session mcp_url token upper to_int gap_id w r)
  checked_health-PreflightVerdict gap_id w (inl e) = inl (e, refl)
  checked_health-PreflightVerdict gap_id w (inr health) =
      by_check (assert_event_spine_safe to_int health)
        ((assert_event_spine_safe-IsSafe to_int health).0)
    where
      by_check :
          (c : Option Failure)
          → (c ≡ none → IsSafe to_int health)
          → PreflightVerdict gap_id
              (w, inr health)
              (after_check session mcp_url token upper to_int gap_id health w c)
      by_check (some e) f = inl (e, refl)
      by_check none f = inr (
        health,
        refl,
        f refl,
        (
          refl,
          checked_gap-GapVerdict upper gap_id health ((get_gap session mcp_url token gap_id w).1),
        ),
      )

  -- A preflight ends with an error after its one request for the health of the event spine; or that
  -- answer is safe, one request for the gap follows, and the preflight ends with an error or with
  -- both answers, where the gap is the asked one or unnamed, is OPEN and has no mark of a closure.
  pub preflight-PreflightVerdict :
      (gap_id : String) (w : W)
      → PreflightVerdict gap_id
          (get_health session mcp_url token w)
          (preflight session mcp_url token upper to_int gap_id w)
  unfolding preflight
  preflight-PreflightVerdict gap_id w =
      let r = get_health session mcp_url token w in
      checked_health-PreflightVerdict gap_id (r.0) (r.1)
