-- ===== src/Transport/Registry.antt =====
-- transport/operation_registry.py: the central registry of operations. The module-level dict
-- `_REGISTRY` is passed explicitly.
pub mod Coherence
use keyhole_sdk.Base.{String, Bool, true, false, Option, none, some, List, [], ◌∷◌, is_some}
use keyhole_sdk.Base.Dict.{lookup, insert}

pub data OperationClass : Type 0 where
  read_only write_idempotent_required naturally_convergent_exempt : OperationClass
  internal_only_not_exposed : OperationClass

pub data RetryPolicy : Type 0 where
  safe_read safe_write_idempotent no_retry : RetryPolicy

pub record OperationDescriptor : Type 0 where
  pub name : String
  pub operation_class : OperationClass
  pub retry_policy : RetryPolicy
  pub idempotency_required : Bool
  pub proof_required : Bool

abbrev pub Registry : Type 0
Registry = List (String × OperationDescriptor)

unfoldable pub register_operation : OperationDescriptor → Registry → Registry
register_operation d registry = insert d.name d registry

unfoldable pub get_operation : String → Registry → Option OperationDescriptor
get_operation name registry = lookup name registry

unfoldable pub is_registered : String → Registry → Bool
is_registered name registry = is_some (lookup name registry)

abbrev required_of : Option OperationDescriptor → Bool
required_of none = false
required_of (some d) = d.idempotency_required

unfoldable pub requires_idempotency : String → Registry → Bool
requires_idempotency name registry = required_of (lookup name registry)

abbrev descriptor : String → OperationClass → RetryPolicy → Bool → Bool → OperationDescriptor
descriptor n c r i p = record {
  name = n;
  operation_class = c;
  retry_policy = r;
  idempotency_required = i;
  proof_required = p;
}

-- The loop that registers a list of descriptors at import time.
unfoldable pub register_all : List OperationDescriptor → Registry → Registry
register_all [] registry = registry
register_all (d ∷ ds) registry = register_all ds (register_operation d registry)

abbrev pub builtin_operations : List OperationDescriptor
builtin_operations =
    descriptor "capabilities" read_only safe_read false false
    ∷ descriptor "whoami" read_only safe_read false false
    ∷ descriptor "registration_status" read_only safe_read false false
    ∷ descriptor "health" read_only safe_read false false
    ∷ descriptor "identity" read_only safe_read false false
    ∷ descriptor "state" read_only safe_read false false
    ∷ descriptor "context.compile" read_only safe_read false false
    ∷ descriptor "context.inspect" read_only safe_read false false
    ∷ descriptor "run.status" read_only safe_read false false
    ∷ descriptor "events.query" read_only safe_read false false
    ∷ descriptor "gaps.list" read_only safe_read false false
    ∷ descriptor "lineage.get.v0_1" read_only safe_read false false
    ∷ descriptor "convergence.status.v0_1" read_only safe_read false false
    ∷ descriptor "register" write_idempotent_required safe_write_idempotent true true
    ∷ descriptor "run.start" write_idempotent_required safe_write_idempotent true true
    ∷ descriptor "realize" write_idempotent_required safe_write_idempotent true true
    ∷ descriptor "ingest.submit" write_idempotent_required safe_write_idempotent true true
    ∷ descriptor "repo.register" write_idempotent_required safe_write_idempotent true true
    ∷ descriptor "capability.search" read_only safe_read false false
    ∷ descriptor "capability.resolve" write_idempotent_required safe_write_idempotent true true
    ∷ descriptor "alignment.guidance" read_only safe_read false false
    ∷ descriptor "run.budget" read_only safe_read false false
    ∷ descriptor "run.explain" read_only safe_read false false
    ∷ descriptor "request.inspect" read_only safe_read false false
    ∷ descriptor "auth.remove" write_idempotent_required safe_write_idempotent true true
    ∷ descriptor "sdk.runtime.surface.get.v1" read_only safe_read false false
    ∷ descriptor "sdk.runtime.compatibility.check.v1" read_only safe_read false false
    ∷ descriptor "verify" naturally_convergent_exempt safe_read false false
    ∷ descriptor "login" naturally_convergent_exempt no_retry false false
    ∷ []

unfoldable pub builtin_registry : Registry
unfolding register_all register_operation
builtin_registry = register_all builtin_operations []
