-- ===== src/Policy/Evaluate/Passed.antt =====
-- policy.go: the results that an evaluation lists as passed.
use hubnot.Prelude.{
  ◌≡◌, refl, arith, String, Bool, true, List, [], ◌∷◌, ◌==◌, eq_iff, All, All-map, All-zip,
  All-select, All-select_test, select, some, Bool-cases, inl, inr, if◌then◌else◌,
}
use hubnot.Prelude.Strings.{distinct}
use hubnot.Prelude.Maps.{Dict, lookup, values}
use hubnot.Prelude.Sort.{All-sort_by}
use hubnot.Event.{StoredEvent}
use hubnot.Event.Order.{earlier, sort_stored_events}
use hubnot.Policy.Document.{PolicyDocument, PipelinePolicy, actor_listed}
use hubnot.Policy.Latest.{latest_by_actor, current_run_results, is_result_of}
use hubnot.Policy.Latest.Actors.{actors, distinct-sort, distinct-select}
use hubnot.Policy.Latest.Current.{
  IsKeyed, nil-IsKeyed, latest-IsKeyed, values-All, IsKeyed-distinct,
}
use hubnot.Policy.Evaluate.Facts.{Known, latest-All}
use hubnot.Policy.Evaluate.Results.{
  latest_by_runner, request_matches, has_passed, evaluate_pipeline_results, PipelineEvaluation,
}

-- A result by a trusted runner, for a request that matches.
pub record Ran (by_id : Dict StoredEvent) (matches : StoredEvent → Bool) (trusted : List String)
    (result : StoredEvent) : Type 0 where
  pub known : Known by_id result
  pub kind : (result.event.kind == "run.result") ≡ true
  pub runner : actor_listed result.event.actor trusted ≡ true
  pub request : StoredEvent
  pub asked : lookup result.event.subject by_id ≡ some request
  pub matched : matches request ≡ true

module _ (by_id : Dict StoredEvent) (matches : StoredEvent → Bool) (trusted : List String)
    (all : List StoredEvent) (known : All (Known by_id) all) where
  results_of :
      (request : StoredEvent)
      → Known by_id request
      → matches request ≡ true
      → All
          (λ r. actor_listed r.event.actor trusted ≡ true → Ran by_id matches trusted r)
          (current_run_results all request.id)
  unfolding current_run_results sort_stored_events is_result_of
  results_of request k m =
      All-map (λ r. Known by_id r × (is_result_of request.id r ≡ true))
        (λ r. actor_listed r.event.actor trusted ≡ true → Ran by_id matches trusted r)
        (λ r h t. record {
          known = h.0;
          kind = ground (arith, h.1);
          runner = t;
          request = request;
          asked = ground (arith, h.1, k.0, eq_iff r.event.subject request.id);
          matched = m;
        })
        (current_run_results all request.id)
        (All-sort_by earlier (λ r. Known by_id r × (is_result_of request.id r ≡ true))
          (values (latest_by_actor (is_result_of request.id) [] all))
          (latest-All (λ r. Known by_id r × (is_result_of request.id r ≡ true))
            (is_result_of request.id) all
            (All-map (Known by_id)
              (λ r.
                is_result_of request.id r ≡ true
                → Known by_id r × (is_result_of request.id r ≡ true))
              (λ r h c. (h, c)) all known)))

  pub latest_by_runner-IsKeyed :
      (m : Dict StoredEvent) (events : List StoredEvent)
      → All (Known by_id) events
      → IsKeyed (Ran by_id matches trusted) m
      → IsKeyed (Ran by_id matches trusted) (latest_by_runner matches trusted all m events)
  unfolding latest_by_runner
  latest_by_runner-IsKeyed m [] k keyed = keyed
  latest_by_runner-IsKeyed m (request ∷ events) k keyed =
      latest_by_runner-IsKeyed
        (if matches request
          then latest_by_actor (λ r. actor_listed r.event.actor trusted) m
              (current_run_results all request.id)
          else m)
        events k.1
        (elim (Bool-cases (matches request)) [
          | inl t ↦ rw t (
              latest-IsKeyed (Ran by_id matches trusted) (λ r. actor_listed r.event.actor trusted) m
                (current_run_results all request.id) (results_of request k.0 t) keyed)
          | inr f ↦ rw f keyed
        ])

-- What the evaluation of one pipeline of the policy lists as passed.
pub record Passes (by_id : Dict StoredEvent) (matches : StoredEvent → Bool) (p : PipelinePolicy)
    (evaluation : PipelineEvaluation) : Type 0 where
  pub required : evaluation.required ≡ p.required_results
  pub one_each : distinct (actors evaluation.passed) ≡ true
  pub ran :
      All (λ r. Ran by_id matches p.trusted_runners r × (has_passed r ≡ true)) evaluation.passed

pub pipeline-Passes :
    (by_id : Dict StoredEvent) (proposal_id name definition : String) (events : List StoredEvent)
    (policy : PolicyDocument) (p : PipelinePolicy)
    → All (Known by_id) events
    → lookup name policy.pipelines ≡ some p
    → Passes by_id
        (request_matches proposal_id name definition policy)
        p
        (evaluate_pipeline_results proposal_id name definition events policy).0
unfolding evaluate_pipeline_results sort_stored_events
pipeline-Passes by_id proposal_id name definition events policy p known found =
    let matches = request_matches proposal_id name definition policy in
    let m = latest_by_runner matches p.trusted_runners events [] events in
    let keyed =
      latest_by_runner-IsKeyed by_id matches p.trusted_runners events known [] events known
        (nil-IsKeyed (Ran by_id matches p.trusted_runners)) in
    rw (evaluate_pipeline_results, found)
      (record {
        required = refl;
        one_each = distinct-sort (select has_passed (values m)) (
            distinct-select has_passed (values m)
              (IsKeyed-distinct (Ran by_id matches p.trusted_runners) m keyed));
        ran =
            All-sort_by earlier (λ r. Ran by_id matches p.trusted_runners r × (has_passed r ≡ true))
              (select has_passed (values m))
              (All-zip (Ran by_id matches p.trusted_runners) (λ r. has_passed r ≡ true)
                (select has_passed (values m))
                (All-select (Ran by_id matches p.trusted_runners) has_passed (values m)
                  (values-All (Ran by_id matches p.trusted_runners) m keyed.each))
                (All-select_test has_passed (values m)));
      })
