-- ===== src/Policy/Agree/Decides.antt =====
-- policy.go: an evaluation against the check of a decision.
use hubnot.Prelude.{
  ◌≡◌, refl, sym, ap, ◌∙◌, arith, String, true, false, ◌||◌, List, [], ◌++◌, ◌==◌, All, All-map,
  All-zip, Bool-cases, inl, inr, ok, length, lt_int, has, select,
}
use mathlib.Core.Path.{subst}
use hubnot.Prelude.Strings.{mem, mem-append, distinct}
use hubnot.Prelude.Maps.{Dict, keys, lookup_entries}
use hubnot.Prelude.Sort.{sort_strings, mem-sort_strings}
use hubnot.Event.{StoredEvent}
use hubnot.Policy.Document.{actor_listed}
use hubnot.Policy.Admit.{
  Repository, Gathered, gather, no_runners, approval_counts, validate_acceptance,
  validate_decision_event,
}
use hubnot.Policy.Admit.Gather.{gather_passes, gather_approver}
use hubnot.Policy.Evaluate.{
  ProposalEvaluation, evaluate_visible, approves, trusted_reviews, ids, passed_ids, base_ready,
  protection_short, protection_ids, pipeline_short, evaluate_pipelines,
}
use hubnot.Policy.Evaluate.Facts.{
  Known, mem-ids, enough, lt_int_mono, mem-sorted_unique, named-sorted_unique,
}
use hubnot.Policy.Evaluate.Ready.{Evaluated, evaluated, PipelineReady, pipelines-ready}
use hubnot.Policy.Agree.Reviews.{approvals-All, approvals-distinct}
use hubnot.Policy.Agree.Runners.{Loads, definitions_load, runners-checked}
use hubnot.Policy.Agree.Protection.{protection-Held, protection-passes}
use hubnot.Policy.Agree.Cited.{Held, ids-Held, All-member, member-All, passed-Held}

module _ (repository : Repository) (proposal decision : StoredEvent) (events : List StoredEvent)
    (by_id : Dict StoredEvent) (known : All (Known by_id) events) (e : ProposalEvaluation)
    (v : Evaluated repository proposal events e) (ready : e.ready ≡ true)
    (cites : decision.event.evidence ≡ e.evidence) where
  -- The three parts of the evidence.
  listed :
      (a : String)
      → (a == "") ≡ false
      → mem a decision.event.evidence ≡ (
          mem a (ids e.approvals)
          || mem a (passed_ids e.pipelines)
          || mem a (protection_ids e.protected_checks))
  listed a named =
      ap (mem a) (cites ∙ v.has_evidence)
      ∙ mem-sorted_unique a
          (ids e.approvals ++ passed_ids e.pipelines ++ protection_ids e.protected_checks) named
      ∙ mem-append a (ids e.approvals ++ passed_ids e.pipelines) (protection_ids e.protected_checks)
      ∙ ap (λ b. b || mem a (protection_ids e.protected_checks))
          (mem-append a (ids e.approvals) (passed_ids e.pipelines))

  approvals-cited :
      All
        (λ r. mem r.id decision.event.evidence ≡ true)
        (select approves (trusted_reviews e.policy proposal events))
  approvals-cited =
      let approvals = select approves (trusted_reviews e.policy proposal events) in
      All-map
        (λ r.
          (Known by_id r × (approval_counts e.policy proposal r ≡ true))
          × (mem r.id (ids approvals) ≡ true))
        (λ r. mem r.id decision.event.evidence ≡ true)
        (λ r h. listed r.id h.0.0.1 ∙ ground (arith, ap (λ xs. mem r.id (ids xs)) v.approving, h.1))
        approvals
        (All-zip _ _ approvals (approvals-All by_id events known e.policy proposal)
          (mem-ids approvals))

  pipelines-cited :
      (a : String)
      → (a == "") ≡ false
      → mem a (passed_ids e.pipelines) ≡ true
      → mem a decision.event.evidence ≡ true
  pipelines-cited a named m = listed a named ∙ ground (arith, m)

  matches : e.code_matches ≡ true
  matches = unfold base_ready in ground (arith, v.is_ready, ready)

  short_of_none : has pipeline_short e.pipelines ≡ false
  short_of_none = unfold base_ready in ground (arith, v.is_ready, ready)

  approved : lt_int (length e.approvals) e.policy.proposals.required_approvals ≡ false
  approved = unfold base_ready in ground (arith, v.is_ready, ready)

  protection_full : protection_short e.protected_checks ≡ false
  protection_full = ground (arith, v.is_ready, ready)

  listed-Held : (a : String) → mem a decision.event.evidence ≡ true → Held by_id a
  listed-Held a m =
      let names = sort_strings (keys e.policy.pipelines) in
      let piped =
        subst (λ b. evaluate_pipelines repository e.policy proposal events b names ≡ ok e.pipelines)
          matches v.piped in
      let approvals : All (Known by_id) e.approvals = subst (All (Known by_id)) (sym v.approving) (
        All-map _ (Known by_id) (λ r h. h.0)
          (select approves (trusted_reviews e.policy proposal events))
          (approvals-All by_id events known e.policy proposal)) in
      elim (Bool-cases (mem a (ids e.approvals))) [
        | inl t ↦ ids-Held by_id e.approvals a approvals t
        | inr f ↦ elim (Bool-cases (mem a (passed_ids e.pipelines))) [
          | inl t ↦ passed-Held repository e.policy proposal events by_id known names piped a t
          | inr g ↦
              protection-Held repository e.policy proposal events by_id known e.protected_checks
                v.protected a (ground (arith, nonempty a m, listed a (nonempty a m)))
        ]
      ]
    where
      nonempty : (b : String) → mem b decision.event.evidence ≡ true → (b == "") ≡ false
      nonempty b m = named-sorted_unique b _ (sym (ap (mem b) (cites ∙ v.has_evidence)) ∙ m)

  approvers-full :
      (definitions : Dict String) (start h : Gathered)
      → gather e.policy definitions proposal by_id decision.id decision.event.evidence start ≡ ok h
      → lt_int (length h.approvers) e.policy.proposals.required_approvals ≡ false
  approvers-full definitions start h gathered =
      let approvals = select approves (trusted_reviews e.policy proposal events) in
      let counted : All (λ r. mem r.event.actor h.approvers ≡ true) approvals =
        All-map
          (λ r.
            (Known by_id r × (approval_counts e.policy proposal r ≡ true))
            × (mem r.id decision.event.evidence ≡ true))
          (λ r. mem r.event.actor h.approvers ≡ true)
          (λ r k.
            gather_approver e.policy definitions proposal by_id decision.id decision.event.evidence
              start {h = h} r gathered k.1 k.0.0.0 k.0.1)
          approvals
          (All-zip _ _ approvals (approvals-All by_id events known e.policy proposal)
            approvals-cited) in
      lt_int_mono (length approvals) (length h.approvers) e.policy.proposals.required_approvals
        (enough approvals h.approvers (approvals-distinct by_id events known e.policy proposal)
          counted)
        (ap (λ xs. lt_int (length xs) e.policy.proposals.required_approvals) (sym v.approving)
          ∙ approved)

  acceptance-passes :
      distinct (keys e.policy.pipelines) ≡ true
      → validate_acceptance repository e.policy decision proposal by_id ≡ ok tt
  unfolding validate_acceptance
  acceptance-passes once =
      let names = sort_strings (keys e.policy.pipelines) in
      let piped =
        subst (λ b. evaluate_pipelines repository e.policy proposal events b names ≡ ok e.pipelines)
          matches v.piped in
      let ready_names =
        pipelines-ready repository e.policy proposal events names piped short_of_none in
      let ready_at = λ (n : String) (m : mem n (keys e.policy.pipelines) ≡ true).
        All-member (PipelineReady repository e.policy proposal events (passed_ids e.pipelines))
          names ready_names n (mem-sort_strings n (keys e.policy.pipelines) ∙ m) in
      let (definitions, loaded, found) =
        definitions_load repository decision.id proposal.event.head e.policy.pipelines (
          member-All _ (keys e.policy.pipelines)
            (λ n m. ((ready_at n m).definition, (ready_at n m).loaded))) in
      let start : Gathered = record { approvers = []; runners = no_runners e.policy.pipelines } in
      let (h, gathered) =
        gather_passes e.policy definitions proposal by_id decision.id decision.event.evidence start
          (member-All (Held by_id) decision.event.evidence listed-Held) in
      let checked =
        runners-checked repository e.policy proposal events by_id known decision.event.evidence
          definitions decision.id start h gathered (passed_ids e.pipelines) pipelines-cited
          e.policy.pipelines (lookup_entries e.policy.pipelines once)
          (member-All (Loads repository proposal.event.head definitions) (keys e.policy.pipelines)
            found)
          (member-All (PipelineReady repository e.policy proposal events (passed_ids e.pipelines))
            (keys e.policy.pipelines) ready_at) in
      let protected =
        protection-passes repository e.policy proposal events by_id known decision
          e.protected_checks v.protected protection_full
          (λ a named m. listed a named ∙ ground (arith, m)) in
      let enough_approvals = approvers-full definitions start h gathered in
      rw (protected, loaded, gathered, enough_approvals) checked

-- When an evaluation is ready, a decision by a maintainer under the evaluated policy that names the
-- evidence of the evaluation passes the check of decisions, whatever its verdict. The map must find
-- each fact by its ID, which is not empty, and the policy must have each pipeline once.
pub ready_decides :
    (repository : Repository) (proposal decision : StoredEvent) (events : List StoredEvent)
    (by_id : Dict StoredEvent) (e : ProposalEvaluation)
    → All (Known by_id) events
    → distinct (keys e.policy.pipelines) ≡ true
    → evaluate_visible repository proposal events ≡ ok e
    → e.ready ≡ true
    → (decision.event.policy == e.policy_digest) ≡ true
    → actor_listed decision.event.actor e.policy.maintainers ≡ true
    → decision.event.evidence ≡ e.evidence
    → validate_decision_event repository decision proposal by_id ≡ ok tt
unfolding validate_decision_event
ready_decides repository proposal decision events by_id e known once run ready policy actor cites =
    let v = evaluated repository proposal events e run in
    let passes =
      acceptance-passes repository proposal decision events by_id known e v ready cites once in
    elim (Bool-cases (decision.event.verdict == "reject")) [
      | inl t ↦ rw (v.loaded, policy, actor, t) refl
      | inr f ↦ rw (v.loaded, policy, actor, f) passes
    ]
