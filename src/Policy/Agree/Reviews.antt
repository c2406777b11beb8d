-- ===== src/Policy/Agree/Reviews.antt =====
-- policy.go: the reviews and decisions of an evaluation against the checks.
use hubnot.Prelude.{
  ◌≡◌, arith, String, Bool, true, List, [], All, All-map, All-zip, All-select, All-select_test,
  select,
}
use hubnot.Prelude.Strings.{distinct}
use hubnot.Prelude.Maps.{Dict, values}
use hubnot.Prelude.Sort.{All-sort_by}
use hubnot.Event.{StoredEvent}
use hubnot.Event.Order.{earlier, sort_stored_events}
use hubnot.Policy.Document.{PolicyDocument, ProtectedChecksPolicy}
use hubnot.Policy.Latest.{latest_by_actor, current_reviews, is_review_of}
use hubnot.Policy.Latest.Actors.{actors, distinct-sort, distinct-select}
use hubnot.Policy.Protected.{protection_review_qualifies}
use hubnot.Policy.Admit.{approval_counts, acceptance_counts}
use hubnot.Policy.Evaluate.{
  review_trusted, approves, trusted_reviews, accepts, decision_counts, current_decisions,
}
use hubnot.Policy.Evaluate.Facts.{Known, latest-All, latest-distinct}

module _ (by_id : Dict StoredEvent) (events : List StoredEvent)
    (known : All (Known by_id) events) where
  Known-counted :
      (counts : StoredEvent → Bool)
      → All (λ e. counts e ≡ true → Known by_id e × (counts e ≡ true)) events
  Known-counted counts =
      All-map (Known by_id) (λ e. counts e ≡ true → Known by_id e × (counts e ≡ true))
        (λ e k c. (k, c)) events known

  pub reviews-All :
      (proposal_id : String)
      → All
          (λ e. Known by_id e × (is_review_of proposal_id e ≡ true))
          (current_reviews events proposal_id)
  unfolding current_reviews sort_stored_events
  reviews-All proposal_id =
      All-sort_by earlier (λ e. Known by_id e × (is_review_of proposal_id e ≡ true))
        (values (latest_by_actor (is_review_of proposal_id) [] events))
        (latest-All (λ e. Known by_id e × (is_review_of proposal_id e ≡ true))
          (is_review_of proposal_id) events (Known-counted (is_review_of proposal_id)))

  pub reviews-distinct :
      (proposal_id : String) → distinct (actors (current_reviews events proposal_id)) ≡ true
  unfolding current_reviews
  reviews-distinct proposal_id =
      distinct-sort (values (latest_by_actor (is_review_of proposal_id) [] events)) (
        latest-distinct (λ e. Known by_id e × (is_review_of proposal_id e ≡ true))
          (is_review_of proposal_id) events (Known-counted (is_review_of proposal_id)))

  module _ (policy : PolicyDocument) (proposal : StoredEvent) where
    pub approvals-All :
        All
          (λ e. Known by_id e × (approval_counts policy proposal e ≡ true))
          (select approves (trusted_reviews policy proposal events))
    unfolding trusted_reviews
    approvals-All =
        let reviews = current_reviews events proposal.id in
        let trusted = select (review_trusted policy proposal) reviews in
        All-map
          (λ e.
            ((Known by_id e × (is_review_of proposal.id e ≡ true))
              × (review_trusted policy proposal e ≡ true))
            × (approves e ≡ true))
          (λ e. Known by_id e × (approval_counts policy proposal e ≡ true))
          (λ e h. (
            h.0.0.0,
            unfold approval_counts review_trusted is_review_of in
                ground (arith, h.0.0.1, h.0.1, h.1),
          ))
          (select approves trusted)
          (All-zip _ _ (select approves trusted)
            (All-select _ approves trusted (
              All-zip _ _ trusted
                (All-select _ (review_trusted policy proposal) reviews (reviews-All proposal.id))
                (All-select_test (review_trusted policy proposal) reviews)))
            (All-select_test approves trusted))

    pub approvals-distinct :
        distinct (actors (select approves (trusted_reviews policy proposal events))) ≡ true
    unfolding trusted_reviews
    approvals-distinct =
        distinct-select approves
          (select (review_trusted policy proposal) (current_reviews events proposal.id))
          (distinct-select (review_trusted policy proposal) (current_reviews events proposal.id)
            (reviews-distinct proposal.id))

    pub protected-All :
        (p : ProtectedChecksPolicy)
        → All
            (λ e. Known by_id e × (protection_review_qualifies e proposal p ≡ true))
            (select
              (λ e. protection_review_qualifies e proposal p)
              (current_reviews events proposal.id))
    protected-All p =
        let reviews = current_reviews events proposal.id in
        let qualifies = λ (e : StoredEvent). protection_review_qualifies e proposal p in
        All-zip (Known by_id) (λ e. protection_review_qualifies e proposal p ≡ true)
          (select qualifies reviews)
          (All-select (Known by_id) qualifies reviews
            (All-map _ (Known by_id) (λ e h. h.0) reviews (reviews-All proposal.id)))
          (All-select_test qualifies reviews)

    pub protected-distinct :
        (p : ProtectedChecksPolicy)
        → distinct (
            actors (
              select
                (λ e. protection_review_qualifies e proposal p)
                (current_reviews events proposal.id)))
          ≡ true
    protected-distinct p =
        distinct-select (λ e. protection_review_qualifies e proposal p)
          (current_reviews events proposal.id) (reviews-distinct proposal.id)

    module _ (digest : String) where
      pub acceptances-All :
          All
            (λ e. Known by_id e × (acceptance_counts policy digest proposal e ≡ true))
            (sort_stored_events (select accepts (current_decisions policy digest proposal events)))
      unfolding current_decisions sort_stored_events
      acceptances-All =
          let counts = decision_counts policy digest proposal in
          let decisions = values (latest_by_actor counts [] events) in
          All-sort_by earlier
            (λ e. Known by_id e × (acceptance_counts policy digest proposal e ≡ true))
            (select accepts decisions)
            (All-map (λ e. (Known by_id e × (counts e ≡ true)) × (accepts e ≡ true))
              (λ e. Known by_id e × (acceptance_counts policy digest proposal e ≡ true))
              (λ e h.
                (h.0.0, unfold acceptance_counts decision_counts in ground (arith, h.0.1, h.1)))
              (select accepts decisions)
              (All-zip _ _ (select accepts decisions)
                (All-select _ accepts decisions (
                  latest-All (λ e. Known by_id e × (counts e ≡ true)) counts events
                    (Known-counted counts)))
                (All-select_test accepts decisions)))

      pub acceptances-distinct :
          distinct (
            actors (
              sort_stored_events
                (select accepts (current_decisions policy digest proposal events))))
          ≡ true
      unfolding current_decisions
      acceptances-distinct =
          let counts = decision_counts policy digest proposal in
          let decisions = values (latest_by_actor counts [] events) in
          distinct-sort (select accepts decisions) (
            distinct-select accepts decisions (
              latest-distinct (λ e. Known by_id e × (counts e ≡ true)) counts events
                (Known-counted counts)))
