-- ===== src/Runs/Waiting.antt =====
-- run_lifecycle/wait.py and run_lifecycle/models.py: the ends of a wait, and the names of statuses.
use keyhole_sdk.Base.{
  ℕ, zero, suc, ◌+◌, ◌≤◌, ◌≡◌, refl, sym, ap, ◌∙◌, String, Bool, true, false, Option, none, some,
  Option-cases, elem, List, [], ◌∷◌, arith, length, Bool-cases, inl, inr, All,
}
use keyhole_sdk.Base.Dict.{lookup}
use keyhole_sdk.Base.Text.{strip, strip_left, strip_right, is_space}
use keyhole_sdk.Runs.{
  RunStatus, accepted, running, deferred, success, failed, rejected, denied, cancelled, unknown,
  status_value, is_terminal, classify_status, RunStatusResult, RunWaitResult, Outside, Run,
  ask_stop, observation_failed, observed, timed_out, wait_from, wait_for_terminal,
}

-- The names of the statuses at which a run has come to its end.
abbrev pub final_names : List String
final_names = "success" ∷ "failed" ∷ "rejected" ∷ "denied" ∷ "cancelled" ∷ []

abbrev pub is_final : RunStatus → Bool
is_final s = elem (status_value s) final_names

is_terminal-is_final : (s : RunStatus) → is_final s ≡ is_terminal s
is_terminal-is_final accepted = refl
is_terminal-is_final running = refl
is_terminal-is_final deferred = refl
is_terminal-is_final success = refl
is_terminal-is_final failed = refl
is_terminal-is_final rejected = refl
is_terminal-is_final denied = refl
is_terminal-is_final cancelled = refl
is_terminal-is_final unknown = refl

-- The query succeeded, and the run was not at its end.
abbrev pub InProgress : {D : Type 0} → RunStatusResult D → Type 0
InProgress x = (x.ok ≡ true) × (is_final (x.status) ≡ false)

-- There is a callback, and it asked to stop when it was told the status at that number of polls.
abbrev pub AskedToStop : {W D : Type 0} → Outside W D → RunStatusResult D → ℕ → Type 0
AskedToStop {W} {D} o x polls =
    (f : RunStatusResult D → ℕ → W → W × Bool) × (w : W) × (o.on_poll ≡ some f)
    × ((f x polls w).1 ≡ true)

-- What a result says of the statuses that were seen, with the number of polls that are allowed.
pub data Explained {W D : Type 0} (o : Outside W D) (limit : ℕ)
    : List (RunStatusResult D) → RunWaitResult D → Type 0 where
  unobserved :
      (x : RunStatusResult D) (xs : List (RunStatusResult D)) (r : RunWaitResult D)
      → x.ok ≡ false
      → r.ok ≡ false
      → All InProgress xs
      → Explained o limit (x ∷ xs) r
  stopped :
      (x : RunStatusResult D) (xs : List (RunStatusResult D)) (r : RunWaitResult D)
      → x.ok ≡ true
      → r.ok ≡ true
      → AskedToStop o x (r.polls)
      → r.interrupted ≡ true
      → r.terminal_status ≡ x.status
      → All InProgress xs
      → Explained o limit (x ∷ xs) r
  finished :
      (x : RunStatusResult D) (xs : List (RunStatusResult D)) (r : RunWaitResult D)
      → x.ok ≡ true
      → is_final (x.status) ≡ true
      → r.ok ≡ true
      → r.interrupted ≡ false
      → r.terminal_status ≡ x.status
      → All InProgress xs
      → Explained o limit (x ∷ xs) r
  exhausted :
      (xs : List (RunStatusResult D)) (r : RunWaitResult D)
      → length xs ≡ limit
      → r.ok ≡ false
      → r.error_class ≡ "wait_timeout"
      → All InProgress xs
      → Explained o limit xs r

module _ {W D : Type 0} (o : Outside W D) (run_id : String) (poll_interval : ℕ) where
  abbrev pub IsExplained : ℕ → Run W D → Type 0
  IsExplained limit r =
      (r.result.polls ≡ length (r.seen))
      × (length (r.seen) ≤ limit)
      × Explained o limit (r.seen) (r.result)

  ask_stop-AskedToStop :
      (start : ℕ) (x : RunStatusResult D) (polls : ℕ) (w : W)
      → (ask_stop o run_id poll_interval start x polls w).1 ≡ true
      → AskedToStop o x polls
  ask_stop-AskedToStop start x polls w h = elim (Option-cases (o.on_poll)) [
    | inl e ↦ absurd (by_none e)
    | inr (f, e) ↦ (f, w, e, by_some f e)
  ]
    where
      asked : Option (RunStatusResult D → ℕ → W → W × Bool) → W × Bool
      asked p = elim p [ none ↦ (w, false) | some f ↦ f x polls w ]

      by_none : o.on_poll ≡ none → ⊥
      by_none e = cc (sym h ∙ ap (λ p. (asked p).1) e)

      by_some :
          (f : RunStatusResult D → ℕ → W → W × Bool) → o.on_poll ≡ some f → (f x polls w).1 ≡ true
      by_some f e = sym (ap (λ p. (asked p).1) e) ∙ h

  wait_from-IsExplained :
      (start limit left : ℕ) (seen : List (RunStatusResult D)) (w : W)
      → length seen + left ≡ limit
      → All InProgress seen
      → IsExplained limit (wait_from o run_id poll_interval start left (length seen) seen w)
  unfolding wait_from observation_failed observed timed_out
  wait_from-IsExplained start limit zero seen w e k =
      (refl, omega arith, exhausted _ _ (omega arith) refl refl k)
  wait_from-IsExplained start limit (suc left) seen w e k =
      let w₁ = (o.fetch_run_status run_id w).0 in
      let x = (o.fetch_run_status run_id w).1 in
      let w₂ = (ask_stop o run_id poll_interval start x (suc (length seen)) w₁).0 in
      elim (Bool-cases (x.ok)) [
        | inr a ↦ simp a (refl, omega arith, unobserved x seen _ a refl k)
        | inl a ↦
            elim (Bool-cases (ask_stop o run_id poll_interval start x (suc (length seen)) w₁).1) [
              | inl b ↦
                  let asked = ask_stop-AskedToStop start x (suc (length seen)) w₁ b in
                  simp (a, b) (refl, omega arith, stopped x seen _ a refl asked refl refl k)
              | inr b ↦ elim (Bool-cases (is_terminal (x.status))) [
                | inl c ↦
                    let final = is_terminal-is_final (x.status) ∙ c in
                    simp (a, b, c) (refl, omega arith, finished x seen _ a final refl refl refl k)
                | inr c ↦
                    simp (a, b, c)
                      (wait_from-IsExplained start limit left (x ∷ seen) (o.sleep poll_interval w₂)
                        (omega arith) ((a, is_terminal-is_final (x.status) ∙ c), k))
              ]
            ]
      ]

  -- A wait polls at most `max_polls` times and says why it ended: a status query failed; or the callback,
  -- told the last status, asked to stop; or the last status, which it reports, is one of the five final
  -- ones; or every poll that is allowed was made. In each case no earlier status was final or a failure.
  pub wait_for_terminal-IsExplained :
      (max_polls : ℕ) (w : W)
      → IsExplained max_polls (wait_for_terminal o run_id poll_interval max_polls w)
  unfolding wait_for_terminal
  wait_for_terminal-IsExplained max_polls w =
      wait_from-IsExplained (o.time w) max_polls max_polls [] w (omega arith) tt

-- Every status is read back from its name, if `str.lower` leaves the names, which are lower-case, as
-- they are.
classify_status_value :
    (lower : String → String)
    → ((s : RunStatus) → lower (status_value s) ≡ status_value s)
    → (s : RunStatus) → classify_status lower (status_value s) ≡ s
unfolding classify_status lookup strip strip_left strip_right is_space
classify_status_value lower h accepted = rw (h accepted) refl
classify_status_value lower h running = rw (h running) refl
classify_status_value lower h deferred = rw (h deferred) refl
classify_status_value lower h success = rw (h success) refl
classify_status_value lower h failed = rw (h failed) refl
classify_status_value lower h rejected = rw (h rejected) refl
classify_status_value lower h denied = rw (h denied) refl
classify_status_value lower h cancelled = rw (h cancelled) refl
classify_status_value lower h unknown = rw (h unknown) refl
