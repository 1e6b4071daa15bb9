-- ===== src/Runs/Arrival.antt =====
-- run_lifecycle/wait.py: a wait for a run that comes to its end.
use keyhole_sdk.Base.{
  ℕ, zero, suc, ◌<◌, ◌≡◌, refl, String, true, false, none, List, [], ◌∷◌, arith, Bool-cases, inl,
  inr,
}
use keyhole_sdk.Runs.{
  is_terminal, RunStatusResult, Outside, ask_stop, observed, wait_from, wait_for_terminal,
}

module _ {W D : Type 0} (o : Outside W D) (run_id : String) (poll_interval : ℕ) where
  -- The world when the k-th query after this one is made.
  abbrev pub later : ℕ → W → W
  later zero w = w
  later (suc k) w = later k (o.sleep poll_interval (o.fetch_run_status run_id w).0)

  ask_stop-none :
      (start : ℕ) (x : RunStatusResult D) (polls : ℕ) (w : W)
      → o.on_poll ≡ none
      → ask_stop o run_id poll_interval start x polls w ≡ (w, false)
  ask_stop-none start x polls w e = rw e refl

  wait_from-arrives :
      (start left polls : ℕ) (seen : List (RunStatusResult D)) (w : W) (k : ℕ)
      → o.on_poll ≡ none
      → ((v : W) → (o.fetch_run_status run_id v).1.ok ≡ true)
      → k < left
      → is_terminal ((o.fetch_run_status run_id (later k w)).1.status) ≡ true
      → let r = (wait_from o run_id poll_interval start left polls seen w).result in
        (r.ok ≡ true) × (r.interrupted ≡ false) × (is_terminal (r.terminal_status) ≡ true)
  unfolding wait_from observed
  wait_from-arrives start zero polls seen w k silent works lt t = ground arith
  wait_from-arrives start (suc left) polls seen w zero silent works lt t =
      let x = (o.fetch_run_status run_id w).1 in
      let w₁ = (o.fetch_run_status run_id w).0 in
      simp (works w, ask_stop-none start x (suc polls) w₁ silent, t) (refl, refl, refl)
  wait_from-arrives start (suc left) polls seen w (suc k) silent works lt t =
      let x = (o.fetch_run_status run_id w).1 in
      let w₁ = (o.fetch_run_status run_id w).0 in
      let s = ask_stop-none start x (suc polls) w₁ silent in
      elim (Bool-cases (is_terminal (x.status))) [
        | inl c ↦ simp (works w, s, c) (refl, refl, refl)
        | inr c ↦
            simp (works w, s, c)
              (wait_from-arrives start left (suc polls) (x ∷ seen) (o.sleep poll_interval w₁) k
                silent works (omega arith) t)
      ]

  -- If every query succeeds and there is no callback, a wait reports a terminal status when the run
  -- has one at any of the polls that are allowed.
  pub wait_for_terminal-arrives :
      (max_polls : ℕ) (w : W) (k : ℕ)
      → o.on_poll ≡ none
      → ((v : W) → (o.fetch_run_status run_id v).1.ok ≡ true)
      → k < max_polls
      → is_terminal ((o.fetch_run_status run_id (later k w)).1.status) ≡ true
      → let r = (wait_for_terminal o run_id poll_interval max_polls w).result in
        (r.ok ≡ true) × (r.interrupted ≡ false) × (is_terminal (r.terminal_status) ≡ true)
  unfolding wait_for_terminal
  wait_for_terminal-arrives max_polls w k silent works lt t =
      wait_from-arrives (o.time w) max_polls 0 [] w k silent works lt t
