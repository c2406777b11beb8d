-- ===== src/Policy/Check.antt =====
-- policy.go and audit_authority.go: `validatePolicy`.
pub mod Sound
use hubnot.Prelude.{
  ◌≡◌, refl, arith, >>=-eq-ok, ℕ, String, Bool, true, false, not, ◌&&◌, ◌||◌, List, [], ◌∷◌, Option,
  none, some, ◌==◌, ltb, leb, eqb, if◌then◌else◌, length, Result, ok, err, errorf, str, num,
  Checked, refuse, ◌>>=◌, ◌>>◌, ℤ, pos, lt_int, int_lt, All, ◌≤◌,
}
use hubnot.Prelude.Strings.{mem, distinct, str_ltb}
use hubnot.Prelude.Maps.{Dict, lookup, present}
use hubnot.Event.Ids.{valid_event_id, valid_git_oid}
use hubnot.Contribution.Checks.{max_graph_records}
use hubnot.Contribution.Rules.{validate_contributions}
use hubnot.Policy.Document.{
  ContributionCheckpoint, MemoryPolicy, ProposalPolicy, PipelinePolicy, ProtectedChecksPolicy,
  AuditPolicy, PolicyDocument, or_nil,
}
use hubnot.Policy.Texts.{
  valid_actor_id, valid_actor_fingerprint, issue_identifier, valid_pipeline_name, concat,
}
use hubnot.Policy.Validate.{
  validate_actor_list, validate_sorted_actor_list, validate_memory_kind_list,
  validate_optional_policy,
}

-- The loop over the checkpoints; `prior` is the ID before.
unfoldable pub validate_checkpoints : String → List ContributionCheckpoint → Checked
validate_checkpoints prior [] = ok tt
validate_checkpoints prior (cp ∷ checkpoints) =
    refuse
      (not (valid_event_id cp.id)
        || not (str_ltb prior cp.id)
        || not (valid_event_id cp.authority.digest)
        || not (valid_git_oid cp.authority.commit))
      (errorf "invalid sorted exact contribution checkpoint" [])
    >> validate_checkpoints cp.id checkpoints

unfoldable pub validate_fingerprints : String → List String → Checked
validate_fingerprints role [] = ok tt
validate_fingerprints role (actor ∷ actors) =
    refuse (not (valid_actor_fingerprint actor))
      (errorf "audits %s requires full actor fingerprints" (str role ∷ []))
    >> validate_fingerprints role actors

-- One round of the loop of `validateAuditPolicy` over the roles.
unfoldable pub validate_audit_role : String → List String → Checked
unfolding validate_fingerprints
validate_audit_role role actors = do
  refuse (eqb (length actors) 0 || ltb 64 (length actors))
      (errorf "audits %s requires 1 to 64 actors" (str role ∷ []))
  validate_actor_list (concat "audits " role) actors
  validate_fingerprints role actors

unfoldable pub validate_audit_policy : Option AuditPolicy → Checked
unfolding validate_audit_role
validate_audit_policy none = ok tt
validate_audit_policy (some p) = do
  refuse (not (issue_identifier p.scope 128))
      (errorf "audits scope must be a bounded identifier" [])
  validate_audit_role "ruleOwners" p.rule_owners
  validate_audit_role "requesters" p.requesters
  validate_audit_role "executors" p.executors

unfoldable pub validate_requesters : String → Option (List String) → Checked
validate_requesters name none = ok tt
validate_requesters name (some requesters) = do
  refuse (ltb (length requesters) 1 || ltb 64 (length requesters))
      (errorf "pipeline %q requesters must list 1 to 64 actors when present" (str name ∷ []))
  validate_actor_list (concat "pipeline " (concat name " requesters")) requesters

unfoldable pub validate_pipelines : Dict PipelinePolicy → Checked
unfolding validate_requesters
validate_pipelines [] = ok tt
validate_pipelines ((name, pipeline) ∷ pipelines) = do
  refuse (not (valid_pipeline_name name))
      (errorf "policy has invalid pipeline name %q" (str name ∷ []))
  refuse (int_lt pipeline.required_results 1 || lt_int 64 pipeline.required_results)
      (errorf "pipeline %q requiredResults must be between 1 and 64" (str name ∷ []))
  validate_actor_list (concat "pipeline " (concat name " trustedRunners")) pipeline.trusted_runners
  refuse (lt_int (length pipeline.trusted_runners) pipeline.required_results)
      (errorf "pipeline %q requiredResults exceeds its trusted runner count" (str name ∷ []))
  validate_requesters name pipeline.requesters
  validate_pipelines pipelines

unfoldable pub validate_memory : MemoryPolicy → Checked
validate_memory m = do
  refuse (not (present m.trusted_actors)) (errorf "memory trustedActors is required" [])
  refuse (not (present m.trusted_kinds)) (errorf "memory trustedKinds is required" [])
  validate_sorted_actor_list "memory trustedActors" (or_nil m.trusted_actors)
  validate_memory_kind_list (or_nil m.trusted_kinds)

-- The first part of `validatePolicy`, up to the version.
unfoldable pub validate_opening : PolicyDocument → Checked
unfolding validate_checkpoints validate_audit_policy
validate_opening policy = do
  elim policy.contributions [ none ↦ ok tt | some p ↦ validate_contributions p ]
  refuse (ltb max_graph_records (length policy.contribution_checkpoints))
      (errorf "contribution checkpoint limit" [])
  validate_checkpoints "" policy.contribution_checkpoints
  validate_audit_policy policy.audits
  refuse (not (policy.version == "hn.policy/0"))
      (errorf "unsupported policy version %q" (str policy.version ∷ []))

-- The maintainers and the proposals.
unfoldable pub validate_proposals : PolicyDocument → Checked
validate_proposals policy = do
  refuse (eqb (length policy.maintainers) 0) (errorf "policy requires at least one maintainer" [])
  validate_actor_list "maintainers" policy.maintainers
  refuse
      (int_lt policy.proposals.required_approvals 0
        || lt_int 64 policy.proposals.required_approvals)
      (errorf "requiredApprovals must be between 0 and 64" [])
  refuse
      (int_lt policy.proposals.required_accepts 1
        || lt_int (length policy.maintainers) policy.proposals.required_accepts)
      (errorf "requiredAccepts must be between 1 and the number of maintainers" [])
  validate_actor_list "trustedReviewers" policy.proposals.trusted_reviewers
  refuse (lt_int (length policy.proposals.trusted_reviewers) policy.proposals.required_approvals)
      (errorf "requiredApprovals exceeds the number of trusted reviewers" [])

unfoldable pub validate_optional_memory : Option MemoryPolicy → Checked
unfolding validate_memory
validate_optional_memory none = ok tt
validate_optional_memory (some m) = validate_memory m

unfoldable pub validate_policy : PolicyDocument → Checked
unfolding validate_opening validate_proposals validate_pipelines validate_optional_memory
validate_policy policy = do
  validate_opening policy
  validate_proposals policy
  validate_pipelines policy.pipelines
  validate_optional_memory policy.memory
  validate_optional_policy policy
