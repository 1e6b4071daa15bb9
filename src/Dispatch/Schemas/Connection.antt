-- ===== src/Dispatch/Schemas/Connection.antt =====
-- dispatch/schema.py: the known schemas, from `connection.identity.inspect` to `events.replay`.
use keyhole_sdk.Base.{String, List, [], ◌∷◌}
use keyhole_sdk.Base.Json.{str, end, field}
use keyhole_sdk.Dispatch.Models.{SchemaHint, static_hint}

abbrev pub connection_schemas : List (String × SchemaHint)
connection_schemas =
    static_hint "connection.identity.inspect" [] [] end "Inspect current connection identity."
    ∷ static_hint "connection.status.inspect" [] [] end "Inspect current connection status."
    ∷ static_hint "connection.list.inspect" [] [] end "List and inspect current connections."
    ∷ static_hint "connection.lineage.inspect" [] [] end "Inspect connection lineage."
    ∷ static_hint "connection.rebind" [] [] end "Rebind the current connection."
    ∷ static_hint "connection.invalidate" [] [] end "Invalidate the current connection."
    ∷ static_hint "flightcheck.v3" [] [] end "Pre-flight readiness check v3."
    ∷ static_hint "auth.login_request" [] [] end "Initiate auth login request."
    ∷ static_hint "auth.login_complete" [] [] end "Complete auth login flow."
    ∷ static_hint "auth.register" [] [] end "Register a new auth identity."
    ∷ static_hint "auth.verify" [] [] end "Verify current auth identity."
    ∷ static_hint "auth.status" [] [] end "Check current auth status."
    ∷ static_hint "auth.remove" [] [] end "Remove an auth identity."
    ∷ static_hint "context.constraints.build" [] [] end "Build context constraints."
    ∷ static_hint "tool.patch.apply" ("patch" ∷ []) [] (field "patch" (str "<patch-content>") end)
        "Apply a patch via the tool surface."
    ∷ static_hint "tool.git.commit_push_pr" ("message" ∷ []) ("branch" ∷ "title" ∷ [])
        (field "message" (str "<commit-msg>") end)
        "Commit, push, and open a PR via the tool surface."
    ∷ static_hint "events.replay" [] ("from_cursor" ∷ "limit" ∷ []) end
        "Replay events from the Event Spine."
    ∷ []
