-- ===== src/Policy/Agree/Merges.antt =====
-- policy.go: an evaluation against the check of a merge.
use hubnot.Prelude.{
  ◌≡◌, sym, ap, ◌∙◌, arith, String, Bool, true, false, List, [], ◌∷◌, ◌==◌, All, All-map, ok,
  length, lt_int, select, ◌≤◌,
}
use hubnot.Prelude.Strings.{mem, distinct}
use hubnot.Prelude.Maps.{Dict}
use hubnot.Prelude.Sort.{sort_strings, mem-sort_strings}
use hubnot.Event.{StoredEvent}
use hubnot.Event.Order.{sort_stored_events}
use hubnot.Policy.Document.{actor_listed}
use hubnot.Policy.Latest.Actors.{actors}
use hubnot.Policy.Protected.{evidence_actors}
use hubnot.Policy.Admit.{Repository, acceptance_counts, validate_merge_event}
use hubnot.Policy.Evaluate.{ProposalEvaluation, evaluate_visible, accepts, current_decisions, ids}
use hubnot.Policy.Evaluate.Facts.{Known, mem-ids, enough, lt_int_mono, evidence-counts}
use hubnot.Policy.Evaluate.Ready.{evaluated}
use hubnot.Policy.Agree.Reviews.{acceptances-All, acceptances-distinct}

-- `sortedDecisionIDs`
unfoldable pub sorted_decision_ids : List StoredEvent → List String
sorted_decision_ids decisions = sort_strings (ids decisions)

-- Facts that qualify and that the evidence names are counted.
pub evidence-enough :
    (qualifies : StoredEvent → Bool) (by_id : Dict StoredEvent) (evidence : List String)
    (xs : List StoredEvent)
    → distinct (actors xs) ≡ true
    → All (λ e. Known by_id e × (qualifies e ≡ true)) xs
    → All (λ e. mem e.id evidence ≡ true) xs
    → length xs ≤ length (evidence_actors qualifies by_id [] evidence)
evidence-enough qualifies by_id evidence xs d all cited =
    enough xs (evidence_actors qualifies by_id [] evidence) d (go xs all cited)
  where
    go :
        (ys : List StoredEvent)
        → All (λ e. Known by_id e × (qualifies e ≡ true)) ys
        → All (λ e. mem e.id evidence ≡ true) ys
        → All (λ e. mem e.event.actor (evidence_actors qualifies by_id [] evidence) ≡ true) ys
    go [] all cited = tt
    go (y ∷ ys) all cited = (
      evidence-counts qualifies by_id [] evidence y cited.0 all.0.0.0 all.0.1,
      go ys all.1 cited.1,
    )

-- When an evaluation is accepted, a merge by a maintainer under the evaluated policy that names the
-- accepting decisions as its evidence passes the check of merges. The map must find each fact by its
-- ID, which is not empty.
pub accepted_merges :
    (repository : Repository) (proposal merge : StoredEvent) (events : List StoredEvent)
    (by_id : Dict StoredEvent) (e : ProposalEvaluation)
    → All (Known by_id) events
    → evaluate_visible repository proposal events ≡ ok e
    → e.accepted ≡ true
    → (merge.event.policy == e.policy_digest) ≡ true
    → actor_listed merge.event.actor e.policy.maintainers ≡ true
    → merge.event.evidence ≡ sorted_decision_ids e.accept_decisions
    → validate_merge_event repository merge proposal by_id ≡ ok tt
unfolding validate_merge_event sorted_decision_ids
accepted_merges repository proposal merge events by_id e known run accepted policy actor cites =
    let v = evaluated repository proposal events e run in
    let decisions =
      sort_stored_events
        (select accepts (current_decisions e.policy e.policy_digest proposal events)) in
    let cited : All (λ d. mem d.id merge.event.evidence ≡ true) decisions =
      All-map (λ d. mem d.id (ids decisions) ≡ true) (λ d. mem d.id merge.event.evidence ≡ true)
        (λ d m.
          ap (mem d.id) cites
          ∙ mem-sort_strings d.id (ids e.accept_decisions)
          ∙ ap (λ ds. mem d.id (ids ds)) v.accepting
          ∙ m)
        decisions (mem-ids decisions) in
    let le =
      evidence-enough (acceptance_counts e.policy e.policy_digest proposal) by_id
        merge.event.evidence decisions
        (acceptances-distinct by_id events known e.policy proposal e.policy_digest)
        (acceptances-All by_id events known e.policy proposal e.policy_digest) cited in
    let full : lt_int (length decisions) e.policy.proposals.required_accepts ≡ false =
      ap (λ ds. lt_int (length ds) e.policy.proposals.required_accepts) (sym v.accepting)
      ∙ ground (arith, v.is_accepted) in
    let counted =
      lt_int_mono (length decisions)
        (length (
          evidence_actors (acceptance_counts e.policy e.policy_digest proposal) by_id []
            merge.event.evidence))
        e.policy.proposals.required_accepts le full in
    rw (v.loaded, policy, actor, counted)
