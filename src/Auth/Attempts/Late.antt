-- ===== src/Auth/Attempts/Late.antt =====
-- A superseded attempt stays superseded, and what starts and sign-outs supersede.
use keyhole_sdk.Base.{
  String, ◌≡◌, refl, true, false, not, ◌||◌, none, some, List, [], ◌∷◌, arith, str_eq, All,
}
use keyhole_sdk.Base.Dict.{lookup, lookup-insert}
use keyhole_sdk.Auth.Attempts.{
  AuthAttempt, AuthAttemptRegistry, map_values, start, is_superseded, complete, cancel, cancel_all,
  Request, ask_start, ask_complete, ask_cancel, ask_cancel_all, serve, serve_all, supersede, finish,
  finish_open,
}
use keyhole_sdk.Auth.Attempts.Invariant.{lookup-map_values, lookup-alter}

-- The request does not mint the id.
abbrev pub Spares : String → Request → Type 0
Spares id (ask_start flow i now) = str_eq i id ≡ false
Spares id (ask_complete i) = Unit
Spares id (ask_cancel i) = Unit
Spares id ask_cancel_all = Unit

serve-superseded :
    (q : Request) (id : String) (r : AuthAttemptRegistry)
    → Spares id q
    → is_superseded id r ≡ true
    → is_superseded id (serve q r) ≡ true
unfolding is_superseded serve start complete cancel cancel_all
serve-superseded (ask_start flow i now) id r p h = ground (
  arith,
  lookup-insert i id (start flow i now r).1 (map_values supersede r.attempts),
  lookup-map_values supersede id r.attempts,
)
serve-superseded (ask_complete i) id r p h =
    ground (arith, lookup-alter (λ a. record a { completed = true }) i id r.attempts)
serve-superseded (ask_cancel i) id r p h = ground (arith, lookup-alter finish i id r.attempts)
serve-superseded ask_cancel_all id r p h =
    ground (arith, lookup-map_values finish_open id r.attempts)

serve_all-superseded :
    (qs : List Request) (id : String) (r : AuthAttemptRegistry)
    → All (Spares id) qs
    → is_superseded id r ≡ true
    → is_superseded id (serve_all qs r) ≡ true
unfolding serve_all
serve_all-superseded [] id r p h = h
serve_all-superseded (q ∷ qs) id r (p, ps) h =
    serve_all-superseded qs id (serve q r) ps (serve-superseded q id r p h)

at_start :
    (r : AuthAttemptRegistry) (old : AuthAttempt) (id flow i now : String)
    → lookup id r.attempts ≡ some old
    → old.completed ≡ false
    → str_eq i id ≡ false
    → is_superseded id (start flow i now r).0 ≡ true
unfolding is_superseded start
at_start r old id flow i now e c p = ground (
  arith,
  lookup-insert i id (start flow i now r).1 (map_values supersede r.attempts),
  lookup-map_values supersede id r.attempts,
)

-- Once a newer login has started, an older attempt that was not completed counts as superseded for
-- ever, whatever requests follow, as long as no later attempt is given its id. (An id that was never
-- handed out counts as superseded too.)
pub start-supersedes :
    (r : AuthAttemptRegistry) (old : AuthAttempt) (id flow i now : String) (qs : List Request)
    → lookup id r.attempts ≡ some old
    → old.completed ≡ false
    → str_eq i id ≡ false
    → All (Spares id) qs
    → is_superseded id (serve_all qs (start flow i now r).0) ≡ true
start-supersedes r old id flow i now qs e c p ps =
    serve_all-superseded qs id _ ps (at_start r old id flow i now e c p)

-- A sign-out leaves no active attempt and completes every attempt: one that was open is superseded
-- as well, and one that was completed keeps its supersession; ids and flows stay.
cancel_all-closes :
    (r : AuthAttemptRegistry) (id : String) (a : AuthAttempt)
    → lookup id r.attempts ≡ some a
    → ((cancel_all r).0.active ≡ none)
      × ((b : AuthAttempt) × (lookup id (cancel_all r).0.attempts ≡ some b)
          × (b.completed ≡ true)
          × (b.superseded ≡ (a.superseded || not a.completed))
          × (b.attempt_id ≡ a.attempt_id)
          × (b.flow ≡ a.flow))
unfolding cancel_all
cancel_all-closes r id a e = (
  refl,
  (
    finish_open a,
    rw lookup-map_values (rw e refl),
    ground arith,
    ground arith,
    ground arith,
    ground arith,
  ),
)
