-- ===== src/Policy/Admit.antt =====
-- policy.go: the checks of a signed decision and of a signed merge against the policy of the
-- proposal's base. What Git answers is a `Repository`.
pub mod Gather
use hubnot.Prelude.{
  String, Bool, true, false, not, ◌&&◌, ◌||◌, List, [], ◌∷◌, Option, none, some, ◌==◌,
  if◌then◌else◌, length, lt_int, Result, Checked, ok, err, errorf, str, refuse, context, ◌>>=◌,
  ◌>>◌,
}
use hubnot.Prelude.Maps.{Dict, lookup, insert, slices}
use hubnot.Event.{StoredEvent}
use hubnot.Event.Ids.{short_id}
use hubnot.Policy.Document.{PolicyDocument, PipelinePolicy, actor_listed, may_request_run}
use hubnot.Policy.Protected.{
  add_actor, note_evidence, evidence_actors, validate_protected_decision_evidence,
}

-- `loadPolicy`, with the digest; `loadPipeline`, its digest; `proposalHead`; `changedPathsAt`.
pub record Repository : Type 0 where
  pub load_policy : String → Result (PolicyDocument × String)
  pub load_pipeline : String → String → Result String
  pub proposal_head : String → Result (Option String)
  pub changed_paths : String → String → Result (List String)

-- A review that counts as an approval.
unfoldable pub approval_counts : PolicyDocument → StoredEvent → StoredEvent → Bool
unfolding actor_listed
approval_counts policy proposal evidence =
    evidence.event.kind == "review.submit"
    && evidence.event.subject == proposal.id
    && evidence.event.verdict == "approve"
    && actor_listed evidence.event.actor policy.proposals.trusted_reviewers
    && (policy.proposals.allow_author_approval
        || not (evidence.event.actor == proposal.event.actor))

-- A request whose results count.
unfoldable pub request_counts : PolicyDocument → StoredEvent → StoredEvent → Bool
unfolding may_request_run
request_counts policy proposal request =
    request.event.kind == "run.request"
    && request.event.subject == proposal.id
    && may_request_run policy request.event.pipeline request.event.actor

unfoldable pub definition_counts : Dict String → StoredEvent → Bool
definition_counts definitions request = elim (lookup request.event.pipeline definitions) [
  | none ↦ request.event.definition == ""
  | some definition ↦ request.event.definition == definition
]

unfoldable pub runner_counts : PolicyDocument → StoredEvent → StoredEvent → Bool
unfolding actor_listed
runner_counts policy request result = elim (lookup request.event.pipeline policy.pipelines) [
  | none ↦ false
  | some p ↦ actor_listed result.event.actor p.trusted_runners
]

-- The sets `approvers` and `pipelineRunners`.
pub record Gathered : Type 0 where
  pub approvers : List String
  pub runners : Dict (List String)

-- `pipelineRunners[name][actor] = true`
unfoldable pub add_runner : String → String → Dict (List String) → Dict (List String)
unfolding add_actor
add_runner name actor runners = insert name (add_actor actor (slices name runners)) runners

-- The two cases of the `switch` on the kind of the evidence.
unfoldable pub note_result :
    PolicyDocument
    → Dict String
    → StoredEvent
    → Dict StoredEvent
    → StoredEvent
    → Gathered
    → Gathered
unfolding request_counts definition_counts runner_counts add_runner
note_result policy definitions proposal by_id result g = elim (lookup result.event.subject by_id) [
  | none ↦ g
  | some request ↦
      if request_counts policy proposal request
        && result.event.outcome == "passed"
        && runner_counts policy request result
        && definition_counts definitions request
      then record g { runners = add_runner request.event.pipeline result.event.actor g.runners }
      else g
]

unfoldable pub gather_one :
    PolicyDocument
    → Dict String
    → StoredEvent
    → Dict StoredEvent
    → StoredEvent
    → Gathered
    → Gathered
unfolding approval_counts note_result add_actor
gather_one policy definitions proposal by_id evidence g =
    if evidence.event.kind == "review.submit"
    then (if approval_counts policy proposal evidence
        then record g { approvers = add_actor evidence.event.actor g.approvers }
        else g)
    else if evidence.event.kind == "run.result"
    then note_result policy definitions proposal by_id evidence g
    else g

-- The loop over the evidence of a decision.
unfoldable pub gather :
    PolicyDocument
    → Dict String
    → StoredEvent
    → Dict StoredEvent
    → String
    → List String
    → Gathered
    → Result Gathered
unfolding gather_one
gather policy definitions proposal by_id decision [] g = ok g
gather policy definitions proposal by_id decision (id ∷ evidence) g = elim (lookup id by_id) [
  | none ↦ err (
      errorf "decision %s references unavailable evidence %s"
        (str (short_id decision) ∷ str (short_id id) ∷ []))
  | some e ↦
      gather policy definitions proposal by_id decision evidence
        (gather_one policy definitions proposal by_id e g)
]

-- The loop that loads every pipeline of the policy at the proposal's head.
unfoldable pub load_definitions :
    Repository → String → String → Dict PipelinePolicy → Result (Dict String)
load_definitions repository decision head [] = ok []
load_definitions repository decision head ((name, p) ∷ pipelines) = do
  definition ←
      context "decision %s required pipeline %q: %w" (str (short_id decision) ∷ str name ∷ [])
        (repository.load_pipeline head name)
  rest ← load_definitions repository decision head pipelines
  ok ((name, definition) ∷ rest)

abbrev pub no_runners : Dict PipelinePolicy → Dict (List String)
no_runners [] = []
no_runners ((name, p) ∷ pipelines) = (name, []) ∷ no_runners pipelines

unfoldable pub check_runners : String → Dict (List String) → Dict PipelinePolicy → Checked
check_runners decision runners [] = ok tt
check_runners decision runners ((name, p) ∷ pipelines) =
    refuse (lt_int (length (slices name runners)) p.required_results)
      (errorf "decision %s lacks required %s results" (str (short_id decision) ∷ str name ∷ []))
    >> check_runners decision runners pipelines

-- `validateProtectedDecisionAt` with both Git directories empty.
unfoldable pub validate_protected_decision_at :
    Repository → PolicyDocument → StoredEvent → StoredEvent → Dict StoredEvent → Checked
unfolding validate_protected_decision_evidence
validate_protected_decision_at repository policy decision proposal by_id =
    elim policy.protected_checks [
      | none ↦ ok tt
      | some p ↦
          context "protected checks: %w" []
            (repository.changed_paths proposal.event.base proposal.event.head)
          >>= λ changed. validate_protected_decision_evidence policy decision proposal by_id changed
    ]

-- What `validateDecisionEvent` asks of an accepting decision.
unfoldable pub validate_acceptance :
    Repository → PolicyDocument → StoredEvent → StoredEvent → Dict StoredEvent → Checked
unfolding validate_protected_decision_at load_definitions gather check_runners
validate_acceptance repository policy decision proposal by_id = do
  validate_protected_decision_at repository policy decision proposal by_id
  definitions ← load_definitions repository decision.id proposal.event.head policy.pipelines
  g ←
      gather policy definitions proposal by_id decision.id decision.event.evidence
        (record { approvers = []; runners = no_runners policy.pipelines })
  refuse (lt_int (length g.approvers) policy.proposals.required_approvals)
      (errorf "decision %s lacks required approval evidence" (str (short_id decision.id) ∷ []))
  check_runners decision.id g.runners policy.pipelines

unfoldable pub validate_decision_event :
    Repository → StoredEvent → StoredEvent → Dict StoredEvent → Checked
unfolding validate_acceptance
validate_decision_event repository decision proposal by_id = do
  (policy, digest) ←
      context "decision %s: %w" (str (short_id decision.id) ∷ [])
        (repository.load_policy proposal.event.base)
  refuse
      (not (decision.event.policy == digest)
        || not (actor_listed decision.event.actor policy.maintainers))
      (errorf "decision %s is not authorized by the proposal policy"
        (str (short_id decision.id) ∷ []))
  (if decision.event.verdict == "reject"
      then ok tt
      else validate_acceptance repository policy decision proposal by_id)

unfoldable pub acceptance_counts : PolicyDocument → String → StoredEvent → StoredEvent → Bool
acceptance_counts policy digest proposal decision =
    decision.event.kind == "proposal.decision"
    && decision.event.subject == proposal.id
    && decision.event.policy == digest
    && decision.event.verdict == "accept"
    && actor_listed decision.event.actor policy.maintainers

unfoldable pub validate_merge_event :
    Repository → StoredEvent → StoredEvent → Dict StoredEvent → Checked
unfolding acceptance_counts
validate_merge_event repository merge proposal by_id = do
  (policy, digest) ←
      context "merge %s: %w" (str (short_id merge.id) ∷ [])
        (repository.load_policy proposal.event.base)
  refuse
      (not (merge.event.policy == digest)
        || not (actor_listed merge.event.actor policy.maintainers))
      (errorf "merge %s is not authorized by the proposal policy" (str (short_id merge.id) ∷ []))
  refuse
      (lt_int
        (length (
          evidence_actors (acceptance_counts policy digest proposal) by_id [] merge.event.evidence))
        policy.proposals.required_accepts)
      (errorf "merge %s lacks required acceptance evidence" (str (short_id merge.id) ∷ []))
