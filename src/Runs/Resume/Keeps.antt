-- ===== src/Runs/Resume/Keeps.antt =====
-- run_lifecycle/resume.py: what resuming leaves of the records, and when it succeeds.
use keyhole_sdk.Base.{
  ◌≡◌, refl, String, true, false, inl, inr, or_str, truthy, arith, Bool-cases, Option-cases,
  Sum-cases,
}
use keyhole_sdk.Base.Json.{Json, or_json}
use keyhole_sdk.Base.Text.{strip}
use keyhole_sdk.Runs.{status_value, RunStatusResult}
use keyhole_sdk.Runs.Record.{RunRecord, Files, key_of, save, load}
use keyhole_sdk.Runs.Record.Keys.{IsKeyed, save-IsKeyed, update_status_lem, update_status-misses}
use keyhole_sdk.Runs.Resume.{
  RunResumeResult, Outside, Run, record_of, resume_recorded, resume_unrecorded, resume_run,
  reconnected_to,
}

module _ {W D : Type 0} (o : Outside W D) where
  -- A result came back, the records are keyed, and a failure changed none of them.
  abbrev pub IsKept : Files → Run W D → Type 0
  IsKept fs run =
      (r : RunResumeResult D) × (run.result ≡ inr r)
      × IsKeyed (o.is_alnum) (run.files)
      × (r.ok ≡ false → run.files ≡ fs)

  reconnected-ok :
      (run_id : String) (x : RunStatusResult D) (source : String) {A : Type 0}
      → (reconnected_to o run_id x source).ok ≡ false
      → A
  unfolding reconnected_to
  reconnected-ok run_id x source e = ground arith

  resume_recorded-IsKept :
      (r : RunRecord) (identifier : String) (repo_name : Json) (fs : Files) (w : W)
      → o.writes ≡ true
      → IsKeyed (o.is_alnum) fs
      → IsKept fs (resume_recorded o r identifier repo_name fs w)
  unfolding resume_recorded
  resume_recorded-IsKept r identifier repo_name fs w writes k =
      let x =
        (o.fetch_run_status (or_str (r.run_id) identifier) (or_json (r.repo_name) repo_name) w).1 in
      let v =
        (o.fetch_run_status (or_str (r.run_id) identifier) (or_json (r.repo_name) repo_name) w).0 in
      let status = status_value (x.status) in
      elim (Bool-cases (x.ok)) [
        | inr a ↦ simp a (_, refl, k, λ e. refl)
        | inl a ↦ elim (Option-cases (load (o.is_alnum) (key_of r) fs)) [
          | inl m ↦
              simp
                (a, update_status-misses (o.is_alnum) (o.writes) (o.now v) (key_of r) status fs m)
                (_, refl, k, λ e. refl)
          | inr (q, m) ↦
              let (gs, made, kept, _, _) =
                update_status_lem (o.is_alnum) (o.writes) (o.now v) (key_of r) status q fs writes k
                  m in
              simp (a, made)
                (
                  _,
                  refl,
                  kept,
                  λ e. reconnected-ok (or_str (r.run_id) identifier) x "local_record" e,
                )
        ]
      ]

  resume_unrecorded-IsKept :
      (identifier : String) (repo_name : Json) (fs : Files) (w : W)
      → IsKeyed (o.is_alnum) fs
      → IsKept fs (resume_unrecorded o identifier repo_name fs w)
  unfolding resume_unrecorded
  resume_unrecorded-IsKept identifier repo_name fs w k =
      let x = (o.fetch_run_status identifier repo_name w).1 in
      let v = (o.fetch_run_status identifier repo_name w).0 in
      let r = record_of o identifier repo_name x in
      elim (Bool-cases (x.ok)) [
        | inr a ↦ simp a (_, refl, k, λ e. refl)
        | inl a ↦ elim (Sum-cases (save (o.is_alnum) (o.writes) (o.now v) r fs)) [
          | inl (f, m) ↦ simp (a, m) (_, refl, k, λ e. refl)
          | inr (gs, m) ↦
              simp (a, m)
                (
                  _,
                  refl,
                  save-IsKeyed (o.is_alnum) (o.writes) (o.now v) r fs gs k m,
                  λ e. reconnected-ok identifier x "boundary_lookup" e,
                )
        ]
      ]

  -- Where files can be written and the records are keyed, resuming comes back with a result and
  -- leaves the records keyed; a resume that does not succeed leaves the files as they were.
  pub resume_run-IsKept :
      (identifier : String) (repo_name : Json) (fs : Files) (w : W)
      → o.writes ≡ true
      → IsKeyed (o.is_alnum) fs
      → IsKept fs (resume_run o identifier repo_name fs w)
  unfolding resume_run
  resume_run-IsKept identifier repo_name fs w writes k =
      elim (Bool-cases (truthy (strip identifier))) [
        | inr a ↦ simp a (_, refl, k, λ e. refl)
        | inl a ↦ elim (Option-cases (load (o.is_alnum) (strip identifier) fs)) [
          | inl m ↦ simp (a, m) (resume_unrecorded-IsKept (strip identifier) repo_name fs w k)
          | inr (r, m) ↦
              simp (a, m) (resume_recorded-IsKept r (strip identifier) repo_name fs w writes k)
        ]
      ]
