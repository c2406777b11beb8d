-- ===== src/Policy/Evaluate/Results.antt =====
-- policy.go: the results of a pipeline that count for a proposal.
use hubnot.Prelude.{
  String, Bool, true, false, not, ◌&&◌, List, [], ◌∷◌, none, some, ◌==◌, if◌then◌else◌, ℤ, pos,
  select,
}
use hubnot.Prelude.Maps.{Dict, lookup, values}
use hubnot.Event.{StoredEvent}
use hubnot.Event.Order.{sort_stored_events}
use hubnot.Policy.Document.{PolicyDocument, actor_listed, may_request_run}
use hubnot.Policy.Latest.{latest_by_actor, current_run_results}

pub record PipelineEvaluation : Type 0 where
  pub name : String
  pub required : ℤ
  pub passed : List StoredEvent
  pub failed : List StoredEvent

-- The requests that the outer loop does not skip.
unfoldable pub request_matches : String → String → String → PolicyDocument → StoredEvent → Bool
unfolding may_request_run
request_matches proposal_id name definition policy request =
    request.event.kind == "run.request"
    && request.event.subject == proposal_id
    && request.event.pipeline == name
    && request.event.definition == definition
    && may_request_run policy name request.event.actor

-- The loops over the requests and, for each, over its current results.
unfoldable pub latest_by_runner :
    (StoredEvent → Bool)
    → List String
    → List StoredEvent
    → Dict StoredEvent
    → List StoredEvent
    → Dict StoredEvent
unfolding actor_listed latest_by_actor current_run_results
latest_by_runner matches trusted all by_runner [] = by_runner
latest_by_runner matches trusted all by_runner (request ∷ events) =
    latest_by_runner matches trusted all
      (if matches request
        then latest_by_actor (λ result. actor_listed result.event.actor trusted) by_runner
            (current_run_results all request.id)
        else by_runner)
      events

abbrev pub has_passed : StoredEvent → Bool
has_passed result = result.event.outcome == "passed"

unfoldable pub evaluate_pipeline_results :
    String → String → String → List StoredEvent → PolicyDocument → PipelineEvaluation × Bool
unfolding request_matches latest_by_runner
evaluate_pipeline_results proposal_id name definition events policy =
    elim (lookup name policy.pipelines) [
      | none ↦ (record { name = name; required = pos 0; passed = []; failed = [] }, false)
      | some p ↦
          let results = values (
            latest_by_runner (request_matches proposal_id name definition policy) p.trusted_runners
              events [] events) in
          (
            record {
              name = name;
              required = p.required_results;
              passed = sort_stored_events (select has_passed results);
              failed = sort_stored_events (select (λ r. not (has_passed r)) results);
            },
            true,
          )
    ]
