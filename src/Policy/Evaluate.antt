-- ===== src/Policy/Evaluate.antt =====
-- policy.go: the evaluation of a proposal under the policy of its base.
pub mod Results
pub mod Ready
mod Counts
pub mod Passed
pub mod Facts
unfoldable pub use Counts.*
use hubnot.Prelude.{
  ℕ, String, Bool, true, false, not, ◌&&◌, ◌||◌, List, [], ◌∷◌, ◌++◌, map, Option, none, some, ◌==◌,
  if◌then◌else◌, length, lt_int, int_lt, is_empty, has, select, ℤ, pos, Result, Checked, ok, err,
  errorf, str, refuse, context, ◌>>=◌, ◌>>◌,
}
use hubnot.Prelude.Maps.{Dict, lookup, keys, values}
use hubnot.Prelude.Sort.{sort_strings}
use hubnot.Event.{StoredEvent, is_proposal_kind}
use hubnot.Event.Ids.{short_id}
use hubnot.Event.Order.{sort_stored_events}
use hubnot.Lineage.{build_lineage_index, candidate, lineage_state, ProposalLineageState}
use hubnot.Policy.Document.{PolicyDocument, PipelinePolicy, actor_listed}
use hubnot.Policy.Latest.{latest_by_actor, current_reviews}
use hubnot.Policy.Protected.{
  ProtectedChecksEvaluation, evaluate_protected_checks, sorted_unique_strings,
}
use hubnot.Policy.Admit.{Repository}
use Results.{PipelineEvaluation, evaluate_pipeline_results}

-- What the contribution projection says of the proposals, and the facts that it leaves in force.
pub record ContributionView : Type 0 where
  pub admitted : String → Bool
  pub visible : String → Bool
  pub operative : List StoredEvent → List StoredEvent

pub record ProposalEvaluation : Type 0 where
  pub proposal : StoredEvent
  pub display_title : String
  pub lineage : ProposalLineageState
  pub policy : PolicyDocument
  pub policy_digest : String
  pub code_available : Bool
  pub code_matches : Bool
  pub approvals : List StoredEvent
  pub change_requests : List StoredEvent
  pub pipelines : List PipelineEvaluation
  pub accept_decisions : List StoredEvent
  pub reject_decisions : List StoredEvent
  pub merge_events : List StoredEvent
  pub ready : Bool
  pub accepted : Bool
  pub rejected : Bool
  pub merged : Bool
  pub evidence : List String
  pub protected_checks : Option ProtectedChecksEvaluation

-- The fields of the evaluation, from what the repository answers.
unfoldable pub conclude :
    StoredEvent
    → List StoredEvent
    → ProposalLineageState
    → StoredEvent
    → PolicyDocument
    → String
    → Option String
    → List PipelineEvaluation
    → Option ProtectedChecksEvaluation
    → ProposalEvaluation
unfolding trusted_reviews current_decisions merge_events_of base_ready
conclude proposal events lineage root policy digest head pipelines protection =
    let matches = head_matches head proposal.event.head in
    let reviews = trusted_reviews policy proposal events in
    let approvals = select approves reviews in
    let decisions = current_decisions policy digest proposal events in
    let accept_decisions = sort_stored_events (select accepts decisions) in
    let reject_decisions = sort_stored_events (select (λ d. not (accepts d)) decisions) in
    let merge_events = merge_events_of digest proposal events in
    record {
      proposal = proposal;
      display_title = root.event.title;
      lineage = lineage;
      policy = policy;
      policy_digest = digest;
      code_available = elim head [ none ↦ false | some h ↦ true ];
      code_matches = matches;
      approvals = approvals;
      change_requests = select (λ r. not (approves r)) reviews;
      pipelines = pipelines;
      accept_decisions = accept_decisions;
      reject_decisions = reject_decisions;
      merge_events = merge_events;
      ready = base_ready matches policy approvals pipelines && not (protection_short protection);
      rejected = not (is_empty reject_decisions);
      accepted =
          is_empty reject_decisions
          && not (lt_int (length accept_decisions) policy.proposals.required_accepts);
      merged = not (is_empty merge_events);
      evidence =
          sorted_unique_strings
            (ids approvals ++ passed_ids pipelines ++ protection_ids protection);
      protected_checks = protection;
    }

-- `evaluateProposal` from its load of the policy on.
unfoldable pub assess :
    Repository
    → StoredEvent
    → List StoredEvent
    → ProposalLineageState
    → StoredEvent
    → Result ProposalEvaluation
unfolding evaluate_pipelines protection_of conclude
assess repository proposal events lineage root = do
  (policy, digest) ← repository.load_policy proposal.event.base
  head ← repository.proposal_head proposal.id
  pipelines ←
      evaluate_pipelines repository policy proposal events (head_matches head proposal.event.head)
        (sort_strings (keys policy.pipelines))
  protection ← protection_of repository policy proposal events
  ok (conclude proposal events lineage root policy digest head pipelines protection)

-- `evaluateProposal` past its look at the contribution projection.
unfoldable pub evaluate_visible :
    Repository → StoredEvent → List StoredEvent → Result ProposalEvaluation
unfolding assess
evaluate_visible repository proposal events = do
  refuse (not (is_proposal_kind proposal.event.kind))
      (errorf "%s is not a proposal" (str (short_id proposal.id) ∷ []))
  index ← build_lineage_index events
  lineage ← lineage_state index proposal.id
  root ← candidate index lineage.root_id
  assess repository proposal events lineage root

unfoldable pub evaluate_proposal :
    Repository
    → (List StoredEvent → Result (Option ContributionView))
    → StoredEvent
    → List StoredEvent
    → Result ProposalEvaluation
unfolding evaluate_visible
evaluate_proposal repository contribution_view proposal events = do
  view ← contribution_view events
  elim view [
    | none ↦ evaluate_visible repository proposal events
    | some v ↦
        refuse (not (v.admitted proposal.id) || not (v.visible proposal.id))
          (errorf "proposal is not admitted and visible under current contribution authority" [])
        >> evaluate_visible repository proposal (v.operative events)
  ]

unfoldable pub proposal_status : ProposalEvaluation → String
proposal_status e =
    if e.lineage.merge_conflict
    then "merge conflict"
    else if e.merged
    then "merged"
    else if e.lineage.lineage_closed
    then "lineage closed"
    else if e.lineage.superseded
    then "superseded"
    else if e.rejected
    then "rejected"
    else if e.accepted
    then "accepted"
    else if e.ready
    then "ready for decision"
    else "blocked"
