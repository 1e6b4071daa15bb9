-- ===== src/Auth/Attempts.antt =====
-- sdk_client_25/auth_state.py: the registry of login attempts. The dict of shared attempt objects is
-- an association list; a holder of an attempt reads it through its id. New ids and times are passed
-- in. Every operation runs under the registry's lock, so a history is a list of operations.
pub mod Invariant
pub mod Late
use keyhole_sdk.Base.{
  String, Bool, true, false, not, ◌&&◌, Option, none, some, List, [], ◌∷◌, str_eq, if◌then◌else◌,
}
use keyhole_sdk.Base.Dict.{lookup, insert, values}

pub record AuthAttempt : Type 0 where
  pub attempt_id : String
  pub flow : String
  pub created_at : String
  pub superseded : Bool
  pub completed : Bool

pub record AuthAttemptRegistry : Type 0 where
  pub attempts : List (String × AuthAttempt)
  pub active : Option String

unfoldable pub new_registry : AuthAttemptRegistry
new_registry = record { attempts = []; active = none }

unfoldable pub map_values :
    (AuthAttempt → AuthAttempt) → List (String × AuthAttempt) → List (String × AuthAttempt)
map_values f [] = []
map_values f ((k, a) ∷ d) = (k, f a) ∷ map_values f d

-- Changes the attempt of a key, if there is one.
unfoldable pub alter :
    String → (AuthAttempt → AuthAttempt) → List (String × AuthAttempt) → List (String × AuthAttempt)
alter k f [] = []
alter k f ((j, a) ∷ d) = if str_eq j k then (j, f a) ∷ d else (j, a) ∷ alter k f d

abbrev supersede : AuthAttempt → AuthAttempt
supersede a = if a.completed then a else record a { superseded = true }

unfoldable pub start :
    String → String → String → AuthAttemptRegistry → AuthAttemptRegistry × AuthAttempt
start flow id now r =
    let attempt : AuthAttempt = record {
      attempt_id = id;
      flow = flow;
      created_at = now;
      superseded = false;
      completed = false;
    } in
    (
      record { attempts = insert id attempt (map_values supersede r.attempts); active = some id },
      attempt,
    )

abbrev superseded_of : Option AuthAttempt → Bool
superseded_of none = true
superseded_of (some a) = a.superseded

unfoldable pub is_superseded : String → AuthAttemptRegistry → Bool
is_superseded id r = superseded_of (lookup id r.attempts)

abbrev names : Option String → String → Bool
names none id = false
names (some active) id = str_eq active id

abbrev live : Option AuthAttempt → Option Bool
live none = none
live (some a) = some (not a.superseded)

-- none is the KeyError of a lookup that fails.
unfoldable pub is_active : String → AuthAttemptRegistry → Option Bool
is_active id r = if names r.active id then live (lookup id r.attempts) else some false

unfoldable pub complete : String → AuthAttemptRegistry → AuthAttemptRegistry
complete id r = record r { attempts = alter id (λ a. record a { completed = true }) r.attempts }

abbrev finish : AuthAttempt → AuthAttempt
finish a = record a { superseded = true; completed = true }

unfoldable pub cancel : String → AuthAttemptRegistry → AuthAttemptRegistry
cancel id r = record r { attempts = alter id finish r.attempts }

abbrev finish_open : AuthAttempt → AuthAttempt
finish_open a = if a.completed then a else finish a

-- The ids of the attempts that are not completed, in the order of the dict.
unfoldable pub open_ids : List (String × AuthAttempt) → List String
open_ids [] = []
open_ids ((k, a) ∷ d) = if a.completed then open_ids d else a.attempt_id ∷ open_ids d

unfoldable pub cancel_all : AuthAttemptRegistry → AuthAttemptRegistry × List String
cancel_all r =
    (record { attempts = map_values finish_open r.attempts; active = none }, open_ids r.attempts)

unfoldable pub snapshot : AuthAttemptRegistry → List AuthAttempt
snapshot r = values r.attempts

-- What a client of the registry can ask for.
pub data Request : Type 0 where
  ask_start : String → String → String → Request
  ask_complete ask_cancel : String → Request
  ask_cancel_all : Request

unfoldable pub serve : Request → AuthAttemptRegistry → AuthAttemptRegistry
serve (ask_start flow id now) r = (start flow id now r).0
serve (ask_complete id) r = complete id r
serve (ask_cancel id) r = cancel id r
serve ask_cancel_all r = (cancel_all r).0

unfoldable pub serve_all : List Request → AuthAttemptRegistry → AuthAttemptRegistry
serve_all [] r = r
serve_all (q ∷ qs) r = serve_all qs (serve q r)
