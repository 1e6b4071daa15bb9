-- ===== src/Dispatch/Models.antt =====
-- dispatch/models.py: results of the checks before a dispatch.
use keyhole_sdk.Base.{String, Bool, true, false, List, map}
use keyhole_sdk.Base.Json.{str, obj, Fields, end, field}

pub data RunTypeStatus : Type 0 where
  valid invalid unknown ambiguous discovery_unavailable : RunTypeStatus

pub record RunTypeCheckResult : Type 0 where
  pub run_type : String
  pub status : RunTypeStatus
  pub suggestions : List String
  pub reason : String
  pub source : String
  pub supplied_identifier : String
  pub canonical_run_type : String
  pub operation_name : String

abbrev pub is_valid : RunTypeCheckResult → Bool
is_valid r = is_valid_status (r.status)
  where
    is_valid_status : RunTypeStatus → Bool
    is_valid_status valid = true
    is_valid_status _ = false

pub record SchemaHint : Type 0 where
  pub run_type : String
  pub available : Bool
  pub required_params : List String
  pub optional_params : List String
  pub example : Fields
  pub notes : String
  pub input_schema : Fields
  pub output_schema : Fields
  pub schema_source : String
  pub canonical_run_type : String
  pub operation_name : String

-- The request of a run.
abbrev pub request_of : String → Fields → Fields
request_of name params = field "run_type" (str name) (field "params" (obj params) end)

-- A hint of the table, with the name as its key.
abbrev pub static_hint : String → List String → List String → Fields → String → String × SchemaHint
static_hint name required optional params notes = (
  name,
  record {
    run_type = name;
    available = true;
    required_params = required;
    optional_params = optional;
    example = request_of name params;
    notes = notes;
    input_schema = end;
    output_schema = end;
    schema_source = "";
    canonical_run_type = "";
    operation_name = "";
  },
)

pub data PreflightStatus : Type 0 where
  pass warn reject : PreflightStatus

pub record PreflightResult : Type 0 where
  pub status : PreflightStatus
  pub run_type : String
  pub reason : String
  pub suggested_next_step : String
  pub warnings : List String

abbrev pub should_proceed : PreflightResult → Bool
should_proceed r = proceeds (r.status)
  where
    proceeds : PreflightStatus → Bool
    proceeds pass = true
    proceeds warn = true
    proceeds reject = false

pub record RecoveryAction : Type 0 where
  pub action : String
  pub detail : String

pub record ErrorRecoveryGuidance : Type 0 where
  pub error_class : String
  pub run_type : String
  pub message : String
  pub actions : List RecoveryAction

abbrev pub action_summary : ErrorRecoveryGuidance → List String
action_summary g = map (λ a. a.action) (g.actions)
