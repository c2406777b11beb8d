-- ===== src/Policy/Evaluate/Counts.antt =====
-- policy.go: the reviews, results, decisions and merges that count in an evaluation.
use hubnot.Prelude.{
  String, Bool, false, not, ◌&&◌, ◌||◌, List, [], ◌∷◌, ◌++◌, map, Option, none, some, ◌==◌,
  if◌then◌else◌, length, lt_int, is_empty, has, select, Result, ok, str, context, ◌>>=◌,
}
use hubnot.Prelude.Maps.{values}
use hubnot.Event.{StoredEvent}
use hubnot.Event.Order.{sort_stored_events}
use hubnot.Policy.Document.{PolicyDocument, actor_listed}
use hubnot.Policy.Latest.{latest_by_actor, current_reviews}
use hubnot.Policy.Protected.{ProtectedChecksEvaluation, evaluate_protected_checks}
use hubnot.Policy.Admit.{Repository}
use hubnot.Policy.Evaluate.Results.{PipelineEvaluation, evaluate_pipeline_results}

-- The reviews that the loop over `currentReviews` does not skip.
unfoldable pub review_trusted : PolicyDocument → StoredEvent → StoredEvent → Bool
unfolding actor_listed
review_trusted policy proposal review =
    actor_listed review.event.actor policy.proposals.trusted_reviewers
    && (policy.proposals.allow_author_approval || not (review.event.actor == proposal.event.actor))

abbrev pub approves : StoredEvent → Bool
approves review = review.event.verdict == "approve"

unfoldable pub trusted_reviews : PolicyDocument → StoredEvent → List StoredEvent → List StoredEvent
unfolding review_trusted
trusted_reviews policy proposal events =
    select (review_trusted policy proposal) (current_reviews events proposal.id)

-- The loop over the sorted names of the pipelines.
unfoldable pub evaluate_pipelines :
    Repository
    → PolicyDocument
    → StoredEvent
    → List StoredEvent
    → Bool
    → List String
    → Result (List PipelineEvaluation)
unfolding evaluate_pipeline_results
evaluate_pipelines repository policy proposal events matches [] = ok []
evaluate_pipelines repository policy proposal events matches (name ∷ names) = do
  definition ←
      if matches
      then context "required pipeline %q: %w" (str name ∷ [])
          (repository.load_pipeline proposal.event.head name)
      else ok ""
  rest ← evaluate_pipelines repository policy proposal events matches names
  ok ((evaluate_pipeline_results proposal.id name definition events policy).0 ∷ rest)

-- The decisions that the loop over the events does not skip.
unfoldable pub decision_counts : PolicyDocument → String → StoredEvent → StoredEvent → Bool
unfolding actor_listed
decision_counts policy digest proposal stored =
    stored.event.kind == "proposal.decision"
    && stored.event.subject == proposal.id
    && stored.event.policy == digest
    && actor_listed stored.event.actor policy.maintainers

abbrev pub accepts : StoredEvent → Bool
accepts decision = decision.event.verdict == "accept"

unfoldable pub current_decisions :
    PolicyDocument → String → StoredEvent → List StoredEvent → List StoredEvent
unfolding decision_counts
current_decisions policy digest proposal events =
    values (latest_by_actor (decision_counts policy digest proposal) [] events)

unfoldable pub merge_events_of : String → StoredEvent → List StoredEvent → List StoredEvent
merge_events_of digest proposal events = sort_stored_events (
    select
      (λ stored.
        stored.event.kind == "proposal.merged"
        && stored.event.subject == proposal.id
        && stored.event.policy == digest)
      events)

abbrev pub ids : List StoredEvent → List String
ids events = map (λ stored. stored.id) events

abbrev pub passed_ids : List PipelineEvaluation → List String
passed_ids [] = []
passed_ids (p ∷ pipelines) = ids p.passed ++ passed_ids pipelines

abbrev pub pipeline_short : PipelineEvaluation → Bool
pipeline_short p = lt_int (length p.passed) p.required

-- `len(xs) >= n` of the two counts, and of each pipeline.
unfoldable pub base_ready :
    Bool → PolicyDocument → List StoredEvent → List PipelineEvaluation → Bool
base_ready matches policy approvals pipelines =
    matches
    && not (lt_int (length approvals) policy.proposals.required_approvals)
    && not (has pipeline_short pipelines)

abbrev pub protection_applies : Option ProtectedChecksEvaluation → Bool
protection_applies none = false
protection_applies (some p) = not (is_empty p.changed_paths)

abbrev pub protection_short : Option ProtectedChecksEvaluation → Bool
protection_short none = false
protection_short (some p) = not (is_empty p.changed_paths) && lt_int (length p.approvals) p.required

abbrev pub protection_ids : Option ProtectedChecksEvaluation → List String
protection_ids none = []
protection_ids (some p) = if is_empty p.changed_paths then [] else ids p.approvals

unfoldable pub protection_of :
    Repository
    → PolicyDocument
    → StoredEvent
    → List StoredEvent
    → Result (Option ProtectedChecksEvaluation)
unfolding evaluate_protected_checks
protection_of repository policy proposal events = elim policy.protected_checks [
  | none ↦ ok none
  | some p ↦
      context "protected checks: %w" []
        (repository.changed_paths proposal.event.base proposal.event.head)
      >>= λ changed. ok (evaluate_protected_checks policy proposal events changed)
]

abbrev pub head_matches : Option String → String → Bool
head_matches none head = false
head_matches (some h) head = h == head
