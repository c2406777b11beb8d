-- ===== src/Policy/Agree/Protection.antt =====
-- protected_checks.go: the approvals of the protected paths against the check of a decision.
use hubnot.Prelude.{
  ◌≡◌, refl, ap, arith, String, true, false, List, [], ◌==◌, All, All-map, All-zip, Option, some,
  Option-cases, Bool-cases, inl, inr, ok, context, Result-cases, select, length, lt_int, is_empty,
}
use hubnot.Prelude.Strings.{mem}
use hubnot.Prelude.Maps.{Dict}
use hubnot.Event.{StoredEvent}
use hubnot.Policy.Document.{PolicyDocument, ProtectedChecksPolicy}
use hubnot.Policy.Latest.{current_reviews}
use hubnot.Policy.Protected.{
  ProtectedChecksEvaluation, evaluate_protected_checks, changed_protected_paths, evidence_actors,
  protection_review_qualifies, validate_protected_decision_evidence,
}
use hubnot.Policy.Admit.{Repository, validate_protected_decision_at}
use hubnot.Policy.Evaluate.{protection_of, protection_short, protection_ids, ids}
use hubnot.Policy.Evaluate.Facts.{Known, mem-ids, lt_int_mono}
use hubnot.Policy.Agree.Cited.{Held, ids-Held}
use hubnot.Policy.Agree.Merges.{evidence-enough}
use hubnot.Policy.Agree.Reviews.{protected-All, protected-distinct}

-- The approvals that the evaluation lists for the protection.
abbrev pub qualified : StoredEvent → List StoredEvent → ProtectedChecksPolicy → List StoredEvent
qualified proposal events p =
    select (λ e. protection_review_qualifies e proposal p) (current_reviews events proposal.id)

module _ (repository : Repository) (policy : PolicyDocument) (proposal : StoredEvent)
    (events : List StoredEvent) (by_id : Dict StoredEvent) (known : All (Known by_id) events) where
  -- The evaluation of the protection, where the policy has one.
  pub record Shape (p : ProtectedChecksPolicy) (protection : Option ProtectedChecksEvaluation)
      : Type 0 where
    pub changed : List String
    pub inspected :
        context "protected checks: %w" []
          (repository.changed_paths proposal.event.base proposal.event.head)
        ≡ ok changed
    pub evaluation :
        some (record {
          changed_paths = changed_protected_paths policy changed;
          required = p.required_approvals;
          approvals = qualified proposal events p;
        })
        ≡ protection

  pub shape :
      (p : ProtectedChecksPolicy) (protection : Option ProtectedChecksEvaluation)
      → policy.protected_checks ≡ some p
      → protection_of repository policy proposal events ≡ ok protection
      → Shape p protection
  unfolding protection_of evaluate_protected_checks
  shape p protection has_p run =
      elim (Result-cases (
        context "protected checks: %w" []
          (repository.changed_paths proposal.event.base proposal.event.head))) [
            | inl (changed, got) ↦ record {
              changed = changed;
              inspected = got;
              evaluation = ground (arith, got, has_p, run);
            }
            | inr (e, failed) ↦ absurd ground (arith, failed, has_p, run)
          ]

  pub protection-Held :
      (protection : Option ProtectedChecksEvaluation)
      → protection_of repository policy proposal events ≡ ok protection
      → (a : String) → mem a (protection_ids protection) ≡ true
      → Held by_id a
  protection-Held protection run a m = elim (Option-cases policy.protected_checks) [
    | inl n ↦ absurd (unfold protection_of mem in ground (arith, n, run))
    | inr (p, has_p) ↦
        let s = shape p protection has_p run in
        ids-Held by_id (qualified proposal events p) a
          (All-map _ (Known by_id) (λ e h. h.0) (qualified proposal events p)
            (protected-All by_id events known policy proposal p))
          (unfold mem in ground (arith, s.evaluation))
  ]

  some-passes :
      (decision : StoredEvent) (p : ProtectedChecksPolicy) (changed : List String)
      → policy.protected_checks ≡ some p
      → lt_int (length (qualified proposal events p)) p.required_approvals ≡ false
      → All (λ e. mem e.id decision.event.evidence ≡ true) (qualified proposal events p)
      → validate_protected_decision_evidence policy decision proposal by_id changed ≡ ok tt
  unfolding validate_protected_decision_evidence
  some-passes decision p changed has_p full cited =
      let qualifies = λ (e : StoredEvent). protection_review_qualifies e proposal p in
      let le =
        evidence-enough qualifies by_id decision.event.evidence (qualified proposal events p)
          (protected-distinct by_id events known policy proposal p)
          (protected-All by_id events known policy proposal p) cited in
      let counted =
        lt_int_mono (length (qualified proposal events p))
          (length (evidence_actors qualifies by_id [] decision.event.evidence)) p.required_approvals
          le full in
      elim (Bool-cases (is_empty (changed_protected_paths policy changed))) [
        | inl t ↦ ground (arith, has_p, t)
        | inr f ↦ ground (arith, has_p, f, counted)
      ]

  pub protection-passes :
      (decision : StoredEvent) (protection : Option ProtectedChecksEvaluation)
      → protection_of repository policy proposal events ≡ ok protection
      → protection_short protection ≡ false
      → ((a : String)
          → (a == "") ≡ false
          → mem a (protection_ids protection) ≡ true
          → mem a decision.event.evidence ≡ true)
      → validate_protected_decision_at repository policy decision proposal by_id ≡ ok tt
  unfolding validate_protected_decision_at
  protection-passes decision protection run full cites =
      elim (Option-cases policy.protected_checks) [
        | inl n ↦ rw n refl
        | inr (p, has_p) ↦
            let s = shape p protection has_p run in
            elim (Bool-cases (is_empty (changed_protected_paths policy s.changed))) [
              | inl t ↦
                  let passes : validate_protected_decision_evidence policy decision proposal by_id
                        s.changed
                      ≡ ok tt =
                    unfold validate_protected_decision_evidence in ground (arith, has_p, t) in
                  ground (arith, has_p, s.inspected, passes)
              | inr f ↦
                  let passes =
                    some-passes decision p s.changed has_p
                      (ground (arith, ap protection_short s.evaluation))
                      (All-map
                        (λ e.
                          (Known by_id e × (protection_review_qualifies e proposal p ≡ true))
                          × (mem e.id (ids (qualified proposal events p)) ≡ true))
                        (λ e. mem e.id decision.event.evidence ≡ true)
                        (λ e h.
                          cites e.id h.0.0.1 (
                            ground
                              (arith, ap (λ o. mem e.id (protection_ids o)) s.evaluation, h.1)))
                        (qualified proposal events p)
                        (All-zip _ _ (qualified proposal events p)
                          (protected-All by_id events known policy proposal p)
                          (mem-ids (qualified proposal events p)))) in
                  ground (arith, has_p, s.inspected, passes)
            ]
      ]
