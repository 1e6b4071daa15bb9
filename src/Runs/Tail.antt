-- ===== src/Runs/Tail.antt =====
-- run_lifecycle/tail.py: following a run by asking for its status, with an entry for each change of it.
-- The query, the callback, sleeping and the clock are parameters, as for a wait. The statuses that
-- the tail was told are kept beside its result, in their order.
pub mod Changes
use keyhole_sdk.Base.{
  ℕ, zero, suc, ◌+◌, ◌≡◌, refl, sym, ap, ◌∙◌, ◌⊎◌, String, Bool, true, false, not, ◌&&◌, ◌||◌,
  Option, none, some, List, [], ◌∷◌, ◌++◌, map, is_empty, or_str, str_eq, if◌then◌else◌, arith,
  length, Bool-cases, inl, inr,
}
use keyhole_sdk.Base.Json.{Json, str, truthy_json}
use keyhole_sdk.Base.Text.{◌<>◌}
use keyhole_sdk.Runs.{RunStatus, status_value, is_terminal, RunStatusResult}

pub record RunTailEntry (D : Type 0) : Type 0 where
  pub timestamp : String
  pub status : String
  pub message : Json
  pub source : String
  -- `inl` holds the error class of a failed query.
  pub raw : String ⊎ D

pub record RunTailResult (D : Type 0) : Type 0 where
  pub ok : Bool
  pub run_id : String
  pub observation_method : String
  pub entries : List (RunTailEntry D)
  pub terminal_status : Option RunStatus
  pub interrupted : Bool
  pub error_class : String
  pub reason : String
  pub repair_guidance : List String

pub record Outside (W D : Type 0) : Type 0 where
  pub fetch_run_status : String → W → W × RunStatusResult D
  -- Whether the callback asks to stop, by its answer or by a KeyboardInterrupt.
  pub on_entry : Option (RunTailEntry D → W → W × Bool)
  pub sleep : W → W
  pub now : W → String

pub record Run (W D : Type 0) : Type 0 where
  pub world : W
  pub seen : List RunStatus
  pub result : RunTailResult D

module _ {W D : Type 0} (o : Outside W D) (run_id : String) where
  abbrev pub error_entry : RunStatusResult D → W → RunTailEntry D
  error_entry x w = record {
    timestamp = o.now w;
    status = "error";
    message = str ("Observation failed: " <> x.reason);
    source = "status_poll";
    raw = inl (x.error_class);
  }

  abbrev pub entry_of : RunStatusResult D → W → RunTailEntry D
  entry_of x w = record {
    timestamp = o.now w;
    status = status_value (x.status);
    message =
        if truthy_json (x.summary) then x.summary else str ("Status: " <> status_value (x.status));
    source = "status_poll";
    raw = inr (x.response_data);
  }

  unfoldable pub tail_failed : RunStatusResult D → List (RunTailEntry D) → W → RunTailResult D
  tail_failed x entries w = record {
    ok = false;
    run_id = run_id;
    observation_method = "status_poll";
    entries = entries ++ error_entry x w ∷ [];
    terminal_status = none;
    interrupted = false;
    error_class = or_str (x.error_class) "observation_failed";
    reason = "Tail observation failed: " <> x.reason;
    repair_guidance =
        if is_empty (x.repair_guidance)
        then ("Retry: keyhole runs tail " <> run_id)
          ∷ "Observation failure does not mean execution failed."
          ∷ []
        else x.repair_guidance;
  }

  unfoldable pub tail_ended : List (RunTailEntry D) → Option RunStatus → Bool → RunTailResult D
  tail_ended entries terminal interrupted = record {
    ok = true;
    run_id = run_id;
    observation_method = "status_poll";
    entries = entries;
    terminal_status = terminal;
    interrupted = interrupted;
    error_class = "";
    reason = "";
    repair_guidance = [];
  }

  -- `current_status != last_status or not entries`
  abbrev pub is_news : RunStatus → String → List (RunTailEntry D) → Bool
  is_news s last entries = not (str_eq (status_value s) last) || is_empty entries

  abbrev pub ask_entry : Bool → RunTailEntry D → W → W × Bool
  ask_entry news e w =
      if news then elim (o.on_entry) [ none ↦ (w, false) | some f ↦ f e w ] else (w, false)

  abbrev pub over : W → List RunStatus → RunTailResult D → Run W D
  over w seen r = record { world = w; seen = seen; result = r }

  abbrev pub told : RunStatus → Run W D → Run W D
  told s r = record { world = r.world; seen = s ∷ r.seen; result = r.result }

  -- `left` polls are allowed; the last entry has the status `last`.
  unfoldable pub tail_from : ℕ → String → List (RunTailEntry D) → W → Run W D
  unfolding tail_failed tail_ended
  tail_from zero last entries w = over w [] (tail_ended entries none false)
  tail_from (suc left) last entries w =
      let w₁ = (o.fetch_run_status run_id w).0 in
      let x = (o.fetch_run_status run_id w).1 in
      let news = is_news (x.status) last entries in
      let e = entry_of x w₁ in
      let entries₁ = if news then entries ++ e ∷ [] else entries in
      let w₂ = (ask_entry news e w₁).0 in
      let last₁ = if news then status_value (x.status) else last in
      let rest = tail_from left last₁ entries₁ (o.sleep w₂) in
      if not (x.ok)
      then over w₁ [] (tail_failed x entries w₁)
      else if (ask_entry news e w₁).1
      then over w₂ (x.status ∷ []) (tail_ended entries₁ none true)
      else if is_terminal (x.status)
      then over w₂ (x.status ∷ []) (tail_ended entries₁ (some (x.status)) false)
      else told (x.status) rest

unfoldable pub tail_run : {W D : Type 0} → Outside W D → String → ℕ → W → Run W D
unfolding tail_from
tail_run o run_id max_entries w = tail_from o run_id max_entries "" [] w
