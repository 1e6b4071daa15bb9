-- ===== src/RunDispatch/Preflight.antt =====
-- run_dispatch/preflight.py: what is checked before a run is dispatched.
-- Whether there are credentials and whether the scaffold exists are parameters.
use keyhole_sdk.Base.{
  ◌≡◌, refl, ◌∙◌, String, Bool, true, not, ◌&&◌, Option, none, some, List, [], ◌∷◌, ◌++◌, elem,
  is_some, truthy, arith, if◌then◌else◌,
}
use keyhole_sdk.Base.Text.{◌<>◌, strip}
use keyhole_sdk.Transport.Registry.{
  Registry, get_operation, builtin_registry, register_all, register_operation,
}
use keyhole_sdk.Base.Dict.{lookup, insert}
use keyhole_sdk.Dispatch.Models.{PreflightResult, should_proceed}
use keyhole_sdk.Dispatch.Names.{canonical_run_types}
use keyhole_sdk.Dispatch.Preflight.{DispatchPreflight, preflight}
use keyhole_sdk.Dispatch.Preflight.Static.{static_preflight, preflight-static}
use keyhole_sdk.Dispatch.Validator.{Mistakes}

pub record PreflightFailure : Type 0 where
  pub reason : String
  pub repair_guidance : List String
  pub is_local : Bool

abbrev pub unauthenticated : PreflightFailure
unauthenticated = record {
  reason = "Not authenticated. Active credentials are missing or expired.";
  repair_guidance = "Run: keyhole login" ∷ "Re-authenticate and try again." ∷ [];
  is_local = true;
}

abbrev pub no_scaffold : PreflightFailure
no_scaffold = record {
  reason = "Missing keyhole.yaml — canonical scaffold not found.";
  repair_guidance =
      "Run: keyhole init vertical" ∷ "Ensure you are in a governed repo directory." ∷ [];
  is_local = true;
}

abbrev pub unregistered : PreflightFailure
unregistered = record {
  reason = "Operation 'run.start' is not registered in the transport registry.";
  repair_guidance = "This is an internal SDK error. Update the SDK." ∷ [];
  is_local = true;
}

abbrev pub run_type_failure : PreflightResult → PreflightFailure
run_type_failure r = record {
  reason = "Run-type preflight rejected: " <> r.reason;
  repair_guidance =
      (if truthy (r.suggested_next_step) then r.suggested_next_step ∷ [] else [])
      ++ "Run: keyhole run --run-type <valid-type>" ∷ [];
  is_local = true;
}

-- `RunPreflight.check`: no failure lets the run through.
unfoldable pub run_preflight :
    (String → String)
    → DispatchPreflight
    → Registry
    → Bool
    → Bool
    → String
    → Option PreflightFailure
unfolding preflight get_operation
run_preflight lower p registry authenticated scaffold run_type =
    let r = preflight lower p run_type none in
    if not authenticated
    then some unauthenticated
    else if not scaffold
    then some no_scaffold
    else if not (should_proceed r)
    then some (run_type_failure r)
    else if not (is_some (get_operation "run.start" registry))
    then some unregistered
    else none

run_preflight-passes :
    (lower : String → String) (p : DispatchPreflight) (registry : Registry)
    (authenticated scaffold : Bool) (run_type : String)
    → is_some (run_preflight lower p registry authenticated scaffold run_type)
      ≡ not (
          authenticated
          && scaffold
          && should_proceed (preflight lower p run_type none)
          && is_some (get_operation "run.start" registry))
unfolding run_preflight
run_preflight-passes lower p registry authenticated scaffold run_type = ground arith

start_is_registered : is_some (get_operation "run.start" builtin_registry) ≡ true
unfolding get_operation builtin_registry register_all register_operation lookup insert
start_is_registered = refl

joined :
    (a s p o t m : Bool)
    → p ≡ (t && m && true)
    → o ≡ true
    → not (a && s && p && o) ≡ not (a && s && t && m)
joined a s p o t m h k = ground arith

-- With no capability answer and the built-in operations, a run whose type has no outer spaces is let
-- through exactly when there are credentials, the scaffold exists, and the type is one of the canonical
-- run types.
pub run_preflight-canonical :
    (lower : String → String) (known : Mistakes) (authenticated scaffold : Bool) (run_type : String)
    → strip run_type ≡ run_type
    → is_some (
        run_preflight lower
          (static_preflight known)
          builtin_registry
          authenticated
          scaffold
          run_type)
      ≡ not (authenticated && scaffold && truthy run_type && elem run_type canonical_run_types)
run_preflight-canonical lower known authenticated scaffold run_type e =
    run_preflight-passes lower (static_preflight known) builtin_registry authenticated scaffold
      run_type
    ∙ joined authenticated scaffold
        (should_proceed (preflight lower (static_preflight known) run_type none))
        (is_some (get_operation "run.start" builtin_registry)) (truthy run_type)
        (elem run_type canonical_run_types) ((preflight-static lower known run_type none e).0)
        start_is_registered
