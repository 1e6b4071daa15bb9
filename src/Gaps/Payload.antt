-- ===== src/Gaps/Payload.antt =====
-- gap_closure.py: the payload of a closure.
-- The declaration and the identity of the repository, the installed versions and the clock are
-- parameters; a repository whose declaration cannot be read is an error.
use keyhole_sdk.Base.{
  String, not, Option, none, some, List, [], ◌∷◌, elem, truthy, or_str, ◌⊎◌, inl, inr,
  if◌then◌else◌,
}
use keyhole_sdk.Base.Json.{str, obj, Fields, end, field, is_end}
use keyhole_sdk.Base.Text.{is_prefix}
use keyhole_sdk.Gaps.{
  Failure, gap_id_not_canonical, unknown_reason, unknown_classification, evidence_missing,
  repository_unread,
}

abbrev pub allowed_classifications : List String
allowed_classifications =
    "valid_unresolved" ∷ "locally_remediated_not_closed" ∷ "superseded_by_later_capability"
    ∷ "duplicate_sdk_submission" ∷ "invalid_gap_requires_governed_reclassification" ∷ []

abbrev pub allowed_reasons : List String
allowed_reasons =
    "remediated" ∷ "already_satisfied" ∷ "superseded" ∷ "duplicate" ∷ "invalid_generated_gap" ∷ []

pub record GapClosurePayload : Type 0 where
  pub gap_id : String
  pub created_via : String
  pub domain : String
  pub capability_id : String
  pub repo_url : String
  pub repo_owner : String
  pub repo_name : String
  pub branch : String
  pub commit_sha : String
  pub workspace_id : String
  pub sdk_version : String
  pub client_version : String
  pub closure_reason : String
  pub closure_classification : String
  pub evidence_bundle_hash : String
  pub local_test_result : Fields
  pub invariant_result : Fields
  pub capability_result : Fields
  pub governed_run_id : String
  pub receipt_id : String
  pub proof_id : String
  pub proof_pointer : String
  pub requested_by : String
  pub requested_ts : String

-- `GapClosurePayload.to_dict`, at the time `now`.
abbrev pub payload_dict : String → GapClosurePayload → Fields
payload_dict now p = field "gap_id" (str (p.gap_id)) (
    field "created_via" (str (p.created_via)) (
      field "domain" (str (p.domain)) (
        field "capability_id" (str (p.capability_id)) (
          field "repo_url" (str (p.repo_url)) (
            field "repo_owner" (str (p.repo_owner)) (
              field "repo_name" (str (p.repo_name)) (
                field "branch" (str (p.branch)) (
                  field "commit_sha" (str (p.commit_sha)) (
                    field "workspace_id" (str (p.workspace_id)) (
                      field "sdk_version" (str (p.sdk_version)) (
                        field "client_version" (str (p.client_version))
                          (payload_claims now p))))))))))))
  where
    payload_claims : String → GapClosurePayload → Fields
    payload_claims now p = field "closure_reason" (str (p.closure_reason)) (
        field "closure_classification" (str (p.closure_classification)) (
          field "evidence_bundle_hash" (str (p.evidence_bundle_hash)) (
            field "local_test_result" (obj (p.local_test_result)) (
              field "invariant_result" (obj (p.invariant_result)) (
                field "capability_result" (obj (p.capability_result)) (
                  field "governed_run_id" (str (p.governed_run_id)) (
                    field "receipt_id" (str (p.receipt_id)) (
                      field "proof_id" (str (p.proof_id)) (
                        field "proof_pointer" (str (p.proof_pointer)) (
                          field "requested_by" (str (p.requested_by))
                            (field "requested_ts" (str (or_str (p.requested_ts) now)) end)))))))))))

-- The arguments of the caller.
pub record ClosureArguments : Type 0 where
  pub gap_id : String
  pub closure_reason : String
  pub closure_classification : String
  pub evidence_bundle_hash : String
  pub local_test_result : Fields
  pub invariant_result : Fields
  pub capability_result : Fields
  pub workspace_id : String
  pub sdk_version : String
  pub client_version : String
  pub requested_by : String
  pub governed_run_id : String
  pub receipt_id : String
  pub proof_id : String
  pub proof_pointer : String

-- What the builder reads of the repository's declaration, and of its remote.
pub record RepoDeclaration : Type 0 where
  pub repo_name : String
  pub capability_id : String

pub record RepoIdentity : Type 0 where
  pub repo_remote : String
  pub owner : String
  pub repo : String
  pub current_branch : String
  pub commit_sha : String

abbrev pub or_unknown : Fields → Fields
or_unknown d = if is_end d then field "status" (str "unknown") end else d

module _ (declared : Option RepoDeclaration) (identity : RepoIdentity)
    (installed_version : String → String) where
  unfoldable pub payload_of : ClosureArguments → RepoDeclaration → GapClosurePayload
  payload_of a declaration = record {
    gap_id = a.gap_id;
    created_via = "sdk.gaps.submit";
    domain = declaration.repo_name;
    capability_id = declaration.capability_id;
    repo_url = identity.repo_remote;
    repo_owner = identity.owner;
    repo_name = or_str (identity.repo) (declaration.repo_name);
    branch = identity.current_branch;
    commit_sha = identity.commit_sha;
    workspace_id = a.workspace_id;
    sdk_version = or_str (a.sdk_version) (installed_version "keyhole-sdk");
    client_version = or_str (a.client_version) (installed_version "keyhole-cli");
    closure_reason = a.closure_reason;
    closure_classification = a.closure_classification;
    evidence_bundle_hash = a.evidence_bundle_hash;
    local_test_result = or_unknown (a.local_test_result);
    invariant_result = or_unknown (a.invariant_result);
    capability_result = or_unknown (a.capability_result);
    governed_run_id = a.governed_run_id;
    receipt_id = a.receipt_id;
    proof_id = a.proof_id;
    proof_pointer = a.proof_pointer;
    requested_by = a.requested_by;
    requested_ts = "";
  }

  abbrev pub payload_from : ClosureArguments → Option RepoDeclaration → Failure ⊎ GapClosurePayload
  payload_from a none = inl repository_unread
  payload_from a (some declaration) = inr (payload_of a declaration)

  unfoldable pub build_gap_closure_payload : ClosureArguments → Failure ⊎ GapClosurePayload
  build_gap_closure_payload a =
      if not (is_prefix "gap_" (a.gap_id))
      then inl gap_id_not_canonical
      else if not (elem (a.closure_reason) allowed_reasons)
      then inl unknown_reason
      else if not (elem (a.closure_classification) allowed_classifications)
      then inl unknown_classification
      else if not (truthy (a.evidence_bundle_hash))
      then inl evidence_missing
      else payload_from a declared
