-- ===== src/Auth/Attempts/Invariant.antt =====
-- What holds of the registry after any history.
use keyhole_sdk.Base.{
  String, ◌≡◌, refl, ◌≢◌, true, false, none, some, List, [], ◌∷◌, arith, str_eq, eq_iff,
  Option-cases, inl, inr, if◌then◌else◌,
}
use keyhole_sdk.Base.Dict.{lookup, lookup-insert}
use keyhole_sdk.Auth.Attempts.{
  AuthAttempt, AuthAttemptRegistry, new_registry, map_values, alter, start, is_active, complete,
  cancel, cancel_all, Request, ask_start, ask_complete, ask_cancel, ask_cancel_all, serve,
  serve_all, supersede, finish, finish_open,
}

pub lookup-map_values :
    (f : AuthAttempt → AuthAttempt) (k : String) (d : List (String × AuthAttempt))
    → lookup k (map_values f d) ≡ elim (lookup k d) [ none ↦ none | some a ↦ some (f a) ]
unfolding lookup map_values
lookup-map_values f k [] = refl
lookup-map_values f k ((j, a) ∷ d) = ground (arith, lookup-map_values f k d)

pub lookup-alter :
    (f : AuthAttempt → AuthAttempt) (i k : String) (d : List (String × AuthAttempt))
    → lookup k (alter i f d)
      ≡ (if str_eq i k then elim (lookup k d) [ none ↦ none | some a ↦ some (f a) ] else lookup k d)
unfolding lookup alter
lookup-alter f i k [] = ground arith
lookup-alter f i k ((j, a) ∷ d) =
    ground (arith, lookup-alter f i k d, eq_iff i k, eq_iff j i, eq_iff j k)

-- An attempt that is neither superseded nor completed is the active one, the active attempt is
-- known, and every attempt stands under its own id.
pub record IsConsistent (r : AuthAttemptRegistry) : Type 0 where
  pub pending_is_active :
      (id : String) (a : AuthAttempt)
      → lookup id r.attempts ≡ some a
      → a.superseded ≡ false
      → a.completed ≡ false
      → r.active ≡ some id
  pub active_is_known : (id : String) → r.active ≡ some id → lookup id r.attempts ≢ none
  pub own_id : (id : String) (a : AuthAttempt) → lookup id r.attempts ≡ some a → a.attempt_id ≡ id

start-IsConsistent :
    (flow i now : String) (r : AuthAttemptRegistry)
    → IsConsistent r
    → IsConsistent (start flow i now r).0
unfolding start
start-IsConsistent flow i now r h = record {
  pending_is_active = λ id a e s c. ground (
    arith,
    lookup-insert i id (start flow i now r).1 (map_values supersede r.attempts),
    lookup-map_values supersede id r.attempts,
    eq_iff i id,
  );
  active_is_known = λ id e. ground (
    arith,
    lookup-insert i id (start flow i now r).1 (map_values supersede r.attempts),
    eq_iff i id,
  );
  own_id = λ id a e. elim (Option-cases (lookup id r.attempts)) [
    | inl n ↦ ground (
      arith,
      lookup-insert i id (start flow i now r).1 (map_values supersede r.attempts),
      lookup-map_values supersede id r.attempts,
      eq_iff i id,
    )
    | inr (b, n) ↦ ground (
      arith,
      lookup-insert i id (start flow i now r).1 (map_values supersede r.attempts),
      lookup-map_values supersede id r.attempts,
      eq_iff i id,
      h.own_id id b n,
    )
  ];
}

-- Changing an attempt in place, so that it is not pending unless it was.
alter-IsConsistent :
    (f : AuthAttempt → AuthAttempt) (i : String) (r : AuthAttemptRegistry)
    → ((a : AuthAttempt) → ((f a).attempt_id ≡ a.attempt_id) × ((f a).completed ≡ true))
    → IsConsistent r
    → IsConsistent (record r { attempts = alter i f r.attempts })
alter-IsConsistent f i r g h = record {
  pending_is_active = λ id a e s c. elim (Option-cases (lookup id r.attempts)) [
    | inl n ↦ ground (arith, lookup-alter f i id r.attempts)
    | inr (b, n) ↦ ground (arith, lookup-alter f i id r.attempts, g b, h.pending_is_active id b n)
  ];
  active_is_known = λ id e n. elim (Option-cases (lookup id r.attempts)) [
    | inl m ↦ h.active_is_known id e m
    | inr (b, m) ↦ ground (arith, lookup-alter f i id r.attempts)
  ];
  own_id = λ id a e. elim (Option-cases (lookup id r.attempts)) [
    | inl n ↦ ground (arith, lookup-alter f i id r.attempts)
    | inr (b, n) ↦ ground (arith, lookup-alter f i id r.attempts, g b, h.own_id id b n)
  ];
}

cancel_all-IsConsistent : (r : AuthAttemptRegistry) → IsConsistent r → IsConsistent (cancel_all r).0
unfolding cancel_all
cancel_all-IsConsistent r h = record {
  pending_is_active = λ id a e s c. ground (arith, lookup-map_values finish_open id r.attempts);
  active_is_known = λ id e. cc;
  own_id = λ id a e. elim (Option-cases (lookup id r.attempts)) [
    | inl n ↦ ground (arith, lookup-map_values finish_open id r.attempts)
    | inr (b, n) ↦ ground (arith, lookup-map_values finish_open id r.attempts, h.own_id id b n)
  ];
}

pub serve-IsConsistent :
    (q : Request) (r : AuthAttemptRegistry) → IsConsistent r → IsConsistent (serve q r)
unfolding serve complete cancel
serve-IsConsistent (ask_start flow i now) r h = start-IsConsistent flow i now r h
serve-IsConsistent (ask_complete i) r h = alter-IsConsistent _ i r (λ a. (refl, refl)) h
serve-IsConsistent (ask_cancel i) r h = alter-IsConsistent finish i r (λ a. (refl, refl)) h
serve-IsConsistent ask_cancel_all r h = cancel_all-IsConsistent r h

new_registry-IsConsistent : IsConsistent new_registry
unfolding new_registry lookup
new_registry-IsConsistent = record {
  pending_is_active = λ id a e. cc;
  active_is_known = λ id e. cc;
  own_id = λ id a e. cc;
}

serve_all-IsConsistent :
    (qs : List Request) (r : AuthAttemptRegistry) → IsConsistent r → IsConsistent (serve_all qs r)
unfolding serve_all
serve_all-IsConsistent [] r h = h
serve_all-IsConsistent (q ∷ qs) r h =
    serve_all-IsConsistent qs (serve q r) (serve-IsConsistent q r h)

-- After any history of a new registry an attempt that is neither superseded nor completed is the
-- active one, and it stands under its own id.
pub history-consistent :
    (qs : List Request) (id : String) (a : AuthAttempt)
    → lookup id (serve_all qs new_registry).attempts ≡ some a
    → a.superseded ≡ false
    → a.completed ≡ false
    → ((serve_all qs new_registry).active ≡ some id) × (a.attempt_id ≡ id)
history-consistent qs id a e s c =
    let h = serve_all-IsConsistent qs new_registry new_registry-IsConsistent in
    (h.pending_is_active id a e s c, h.own_id id a e)

is_active-known : (id : String) (r : AuthAttemptRegistry) → IsConsistent r → is_active id r ≢ none
unfolding is_active
is_active-known id r h n = elim (Option-cases r.active) [
  | inl e ↦ ground arith
  | inr (active, e) ↦ elim (Option-cases (lookup id r.attempts)) [
    | inl m ↦ ground (arith, eq_iff active id, λ (p : r.active ≡ some id). h.active_is_known id p m)
    | inr (b, m) ↦ ground arith
  ]
]

-- After any history of a new registry `is_active` answers: it never fails on a missing key.
history-is_active :
    (qs : List Request) (id : String) → is_active id (serve_all qs new_registry) ≢ none
history-is_active qs id =
    is_active-known id _ (serve_all-IsConsistent qs new_registry new_registry-IsConsistent)
