-- ===== src/Transport/Registry/Coherence.antt =====
-- What the built-in descriptors agree on.
use mathlib.Core.Path.{subst, ◌∙◌}
use keyhole_sdk.Base.{
  String, ◌≡◌, refl, ◌↔◌, Bool, true, false, ◌&&◌, some, [], ◌∷◌, arith, Bool-cases, inl, inr,
  str_eq, eq_iff,
}
use keyhole_sdk.Base.Dict.{lookup, insert}
use keyhole_sdk.Transport.Registry.{
  OperationClass, read_only, write_idempotent_required, naturally_convergent_exempt, RetryPolicy,
  safe_read, safe_write_idempotent, no_retry, OperationDescriptor, Registry, get_operation,
  builtin_registry,
}

-- A descriptor needs a key exactly if it is of the write class, and exactly if its retries are the
-- idempotent ones; where it needs a key it needs proof.
pub record IsCoherent (d : OperationDescriptor) : Type 0 where
  pub required_is_write :
      (d.idempotency_required ≡ true) ↔ (d.operation_class ≡ write_idempotent_required)
  pub required_is_safe : (d.idempotency_required ≡ true) ↔ (d.retry_policy ≡ safe_write_idempotent)
  pub required_is_proven : d.idempotency_required ≡ d.proof_required

-- The four kinds of descriptors that the table uses.
check : OperationClass → RetryPolicy → Bool → Bool → Bool
check write_idempotent_required safe_write_idempotent true true = true
check read_only safe_read false false = true
check naturally_convergent_exempt safe_read false false = true
check naturally_convergent_exempt no_retry false false = true
check _ _ _ _ = false

check-IsCoherent :
    (d : OperationDescriptor)
    → check d.operation_class d.retry_policy d.idempotency_required d.proof_required ≡ true
    → IsCoherent d
unfolding check
check-IsCoherent d h = record {
  required_is_write = (ground arith, ground arith);
  required_is_safe = (ground arith, ground arith);
  required_is_proven = ground arith;
}

all_check : Registry → Bool
all_check [] = true
all_check ((k, d) ∷ registry) =
    str_eq d.name k
    && check d.operation_class d.retry_policy d.idempotency_required d.proof_required
    && all_check registry

lookup-check :
    (registry : Registry) (k : String) (d : OperationDescriptor)
    → all_check registry ≡ true
    → lookup k registry ≡ some d
    → (d.name ≡ k) × IsCoherent d
unfolding all_check lookup
lookup-check [] k d h e = cc
lookup-check ((j, c) ∷ registry) k d h e = elim (Bool-cases (str_eq j k)) [
  | inl same ↦
      let same_d : c ≡ d = ground (arith, e) in
      let own : c.name ≡ j = (eq_iff c.name j).0 (ground arith) in
      subst (λ x. (x.name ≡ k) × IsCoherent x) same_d
        (own ∙ (eq_iff j k).0 same, check-IsCoherent c (ground arith))
  | inr other ↦ lookup-check registry k d (ground arith) (rw other at e)
]

-- In the built-in registry every operation is found under its own name, and its descriptor is
-- coherent: it needs a key exactly if it is a write that must be idempotent, and exactly if its
-- retry policy is the idempotent one; and it asks for proof exactly if it needs a key.
builtin_registry-IsCoherent :
    (name : String) (d : OperationDescriptor)
    → get_operation name builtin_registry ≡ some d
    → (d.name ≡ name) × IsCoherent d
unfolding get_operation builtin_registry all_check check insert
builtin_registry-IsCoherent name d h = lookup-check builtin_registry name d refl h
