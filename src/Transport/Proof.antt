-- ===== src/Transport/Proof.antt =====
-- transport/proof_metadata.py: the proof trail of a call. Timestamps are passed in.
use keyhole_sdk.Base.{ℕ, String, Option, none, List, [], ◌∷◌, ◌++◌, length, truthy, if◌then◌else◌}

pub data ClientObservation : Type 0 where
  executed replayed deferred conflict transport_unknown not_sent : ClientObservation

pub record AttemptMetadata : Type 0 where
  pub attempt : ℕ
  pub request_id : String
  pub timestamp : String
  pub reason : String
  pub delay_ms : ℕ

pub record TransportProofMetadata : Type 0 where
  pub request_id : String
  pub idempotency_key : Option String
  pub operation_class : String
  pub command_name : String
  pub attempt_count : ℕ
  pub final_client_observation : ClientObservation
  pub server_request_id : Option String
  pub original_request_id : Option String
  pub attempts : List AttemptMetadata
  pub retry_reasons : List String

-- A fresh trail, by the dataclass's defaults.
unfoldable pub new_proof : Option String → String → String → TransportProofMetadata
new_proof key class command = record {
  request_id = "";
  idempotency_key = key;
  operation_class = class;
  command_name = command;
  attempt_count = 0;
  final_client_observation = not_sent;
  server_request_id = none;
  original_request_id = none;
  attempts = [];
  retry_reasons = [];
}

unfoldable pub record_attempt :
    ℕ → String → String → String → TransportProofMetadata → TransportProofMetadata
record_attempt attempt request_id timestamp reason p =
    let entry : AttemptMetadata = record {
      attempt = attempt;
      request_id = request_id;
      timestamp = timestamp;
      reason = reason;
      delay_ms = 0;
    } in
    record p {
      attempts = p.attempts ++ entry ∷ [];
      attempt_count = length (p.attempts ++ entry ∷ []);
      request_id = request_id;
      retry_reasons = if truthy reason then p.retry_reasons ++ reason ∷ [] else p.retry_reasons;
    }

unfoldable pub mark_observation :
    ClientObservation → TransportProofMetadata → TransportProofMetadata
mark_observation observation p = record p { final_client_observation = observation }
