-- ===== src/Runs/Tail/Changes.antt =====
-- run_lifecycle/tail.py: the entries of a tail, and its end.
use keyhole_sdk.Base.{
  ℕ, zero, suc, ◌≡◌, refl, sym, ap, ◌∙◌, String, Bool, true, false, not, List, [], ◌∷◌, ◌++◌, map,
  is_empty, str_eq, if◌then◌else◌, arith, Bool-cases, inl, inr,
}
use mathlib.Core.List.{append-nil, append_assoc}
use keyhole_sdk.Runs.{
  accepted, running, deferred, success, failed, rejected, denied, cancelled, unknown, RunStatus,
  status_value, is_terminal, RunStatusResult,
}
use keyhole_sdk.Runs.Tail.{
  RunTailEntry, Outside, is_news, entry_of, ask_entry, tail_failed, tail_ended, tail_from, tail_run,
}

-- The texts that differ from the one before them, `last` being before the first.
unfoldable pub changes : String → List String → List String
changes last [] = []
changes last (s ∷ ss) =
    let rest = changes s ss in
    let same = changes last ss in if str_eq s last then same else s ∷ rest

value-ne-empty : (s : RunStatus) → str_eq (status_value s) "" ≡ false
value-ne-empty accepted = refl
value-ne-empty running = refl
value-ne-empty deferred = refl
value-ne-empty success = refl
value-ne-empty failed = refl
value-ne-empty rejected = refl
value-ne-empty denied = refl
value-ne-empty cancelled = refl
value-ne-empty unknown = refl

abbrev pub statuses : {D : Type 0} → List (RunTailEntry D) → List String
statuses [] = []
statuses (e ∷ es) = e.status ∷ statuses es

statuses-snoc :
    {D : Type 0} (es : List (RunTailEntry D)) (e : RunTailEntry D)
    → statuses (es ++ e ∷ []) ≡ statuses es ++ e.status ∷ []
statuses-snoc [] e = refl
statuses-snoc (x ∷ es) e = ap (λ r. x.status ∷ r) (statuses-snoc es e)

module _ {W D : Type 0} (o : Outside W D) (run_id : String) where
  is_news_lem :
      (s : RunStatus) (last : String) (entries : List (RunTailEntry D))
      → (is_empty entries ≡ true → last ≡ "")
      → is_news o run_id s last entries ≡ not (str_eq (status_value s) last)
  is_news_lem s last [] h = rw (h refl, value-ne-empty s) refl
  is_news_lem s last (e ∷ es) h = ground arith

  recorded-step :
      (x : RunStatusResult D) (last : String) (entries : List (RunTailEntry D)) (e : RunTailEntry D)
      → (ss t : List String) → e.status ≡ status_value (x.status)
      → (is_empty entries ≡ true → last ≡ "")
      → let news = is_news o run_id (x.status) last entries in
        statuses (if news then entries ++ e ∷ [] else entries)
          ++ (changes (if news then status_value (x.status) else last) ss ++ t)
        ≡ statuses entries ++ (changes last (status_value (x.status) ∷ ss) ++ t)
  unfolding changes
  recorded-step x last entries e ss t same h =
      elim (Bool-cases (str_eq (status_value (x.status)) last)) [
        | inl a ↦ rw (is_news_lem (x.status) last entries h, a) refl
        | inr a ↦
            rw (is_news_lem (x.status) last entries h, a, statuses-snoc entries e, same)
              (append_assoc (statuses entries) (status_value (x.status) ∷ []) _)
      ]

  recorded_last :
      (x : RunStatusResult D) (last : String) (entries : List (RunTailEntry D)) (e : RunTailEntry D)
      → e.status ≡ status_value (x.status)
      → (is_empty entries ≡ true → last ≡ "")
      → statuses (if is_news o run_id (x.status) last entries then entries ++ e ∷ [] else entries)
        ≡ statuses entries ++ (changes last (status_value (x.status) ∷ []) ++ [])
  recorded_last x last entries e same h =
      sym (append-nil _) ∙ unfold changes in recorded-step x last entries e [] [] same h

  recorded-begun :
      (news : Bool) (s last : String) (entries : List (RunTailEntry D)) (e : RunTailEntry D)
      → (is_empty entries ≡ true → last ≡ "")
      → is_empty (if news then entries ++ e ∷ [] else entries) ≡ true
      → (if news then s else last) ≡ ""
  recorded-begun false s last entries e h k = h k
  recorded-begun true s last [] e h k = ground arith
  recorded-begun true s last (y ∷ ys) e h k = ground arith

  tail_from-changes :
      (left : ℕ) (last : String) (entries : List (RunTailEntry D)) (w : W)
      → (is_empty entries ≡ true → last ≡ "")
      → let r = tail_from o run_id left last entries w in
        statuses (r.result.entries)
        ≡ statuses entries
          ++ (changes last (map status_value (r.seen))
              ++ (if r.result.ok then [] else "error" ∷ []))
  unfolding tail_from tail_failed tail_ended
  tail_from-changes zero last entries w h = unfold changes in sym (append-nil (statuses entries))
  tail_from-changes (suc left) last entries w h =
      let w₁ = (o.fetch_run_status run_id w).0 in
      let x = (o.fetch_run_status run_id w).1 in
      let e = entry_of o run_id x w₁ in
      let news = is_news o run_id (x.status) last entries in
      let asked = ask_entry o run_id news e w₁ in
      elim (Bool-cases (x.ok)) [
        | inr a ↦ simp a (unfold changes in statuses-snoc entries _)
        | inl a ↦ elim (Bool-cases (asked.1)) [
          | inl b ↦ simp (a, b) (recorded_last x last entries e refl h)
          | inr b ↦ elim (Bool-cases (is_terminal (x.status))) [
            | inl c ↦ simp (a, b, c) (recorded_last x last entries e refl h)
            | inr c ↦
                simp (a, b, c)
                  (tail_from-changes left (if news then status_value (x.status) else last)
                      (if news then entries ++ e ∷ [] else entries) (o.sleep (asked.0))
                      (recorded-begun news (status_value (x.status)) last entries e h)
                    ∙ recorded-step x last entries e _ _ refl h)
          ]
        ]
      ]

  -- The entries of a tail have the statuses that it was told, each one that repeats the status before
  -- it left out; when the last query failed there is one more entry, whose status is "error".
  pub tail_run-changes :
      (max_entries : ℕ) (w : W)
      → let r = tail_run o run_id max_entries w in
        statuses (r.result.entries)
        ≡ changes "" (map status_value (r.seen)) ++ (if r.result.ok then [] else "error" ∷ [])
  unfolding tail_run
  tail_run-changes max_entries w = tail_from-changes max_entries "" [] w (λ e. refl)
