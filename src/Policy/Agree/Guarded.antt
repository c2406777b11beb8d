-- ===== src/Policy/Agree/Guarded.antt =====
-- protected_checks.go: changes of the policy file.
use hubnot.Prelude.{
  ◌≡◌, refl, ap, ◌∙◌, arith, String, Bool, true, false, List, [], ◌∷◌, ◌++◌, map, ◌==◌, eq_iff, All,
  All-map, All-select, All-select_test, some, ◌≤◌, ◌≢◌, ℕ, pos, Bool-cases, inl, inr, ok, context,
  length, lt_int, select, has,
}
use mathlib.Core.List.{Mem}
use hubnot.Policy.Latest.{current_reviews, is_review_of}
use hubnot.Policy.Latest.Exact.{current_reviews-IsCurrent}
use hubnot.Prelude.Strings.{mem, mem-append, mem-cons_self, distinct}
use hubnot.Prelude.Maps.{Dict, keys}
use hubnot.Event.{StoredEvent}
use hubnot.Policy.Document.{PolicyDocument, ProtectedChecksPolicy, or_nil, actor_listed}
use hubnot.Policy.Texts.{pipeline_path}
use hubnot.Policy.Latest.Actors.{actors}
use hubnot.Policy.Protected.{
  sorted_unique_strings, protected_path_matches, protected_paths, changed_protected_paths,
  protection_review_qualifies,
}
use hubnot.Policy.Admit.{Repository}
use hubnot.Policy.Evaluate.{ProposalEvaluation, evaluate_visible, protection_short}
use hubnot.Policy.Evaluate.Facts.{Known, mem-sorted_unique}
use hubnot.Policy.Evaluate.Ready.{evaluated}
use hubnot.Policy.Agree.Protection.{qualified, shape}
use hubnot.Policy.Agree.Reviews.{protected-distinct}

has-mem :
    (test : String → Bool) (xs : List String) (a : String)
    → mem a xs ≡ true
    → test a ≡ true
    → has test xs ≡ true
unfolding has mem
has-mem test [] a m t = absurd ground arith
has-mem test (x ∷ xs) a m t = elim (Bool-cases (x == a)) [
  | inl same ↦ let e : x ≡ a = ground (arith, eq_iff x a) in ground (arith, ap test e)
  | inr other ↦ ground (arith, has-mem test xs a)
]

select-mem :
    (test : String → Bool) (xs : List String) (a : String)
    → mem a xs ≡ true
    → test a ≡ true
    → mem a (select test xs) ≡ true
unfolding select mem
select-mem test [] a m t = absurd ground arith
select-mem test (x ∷ xs) a m t = elim (Bool-cases (x == a)) [
  | inl same ↦ let e : x ≡ a = ground (arith, eq_iff x a) in ground (arith, ap test e)
  | inr other ↦ ground (arith, select-mem test xs a)
]

-- Where a policy protects anything, a change of `.hn/policy.json` is a protected change.
pub policy_file_protected :
    (policy : PolicyDocument) (p : ProtectedChecksPolicy) (changed : List String)
    → policy.protected_checks ≡ some p
    → mem ".hn/policy.json" changed ≡ true
    → mem ".hn/policy.json" (changed_protected_paths policy changed) ≡ true
unfolding changed_protected_paths protected_paths
policy_file_protected policy p changed has_p m =
    let file : String = ".hn/policy.json" in
    let rest = map pipeline_path (keys policy.pipelines) in
    let inside : mem file (or_nil p.paths ++ file ∷ rest) ≡ true =
      mem-append file (or_nil p.paths) (file ∷ rest) ∙ ground (arith, mem-cons_self file rest) in
    let listed = mem-sorted_unique file (or_nil p.paths ++ file ∷ rest) refl ∙ inside in
    let same : protected_path_matches file file ≡ true = unfold protected_path_matches in refl in
    select-mem (λ q. has (λ protected. protected_path_matches protected q) (protected_paths policy))
      changed file m
      (rw has_p (
        has-mem (λ protected. protected_path_matches protected file)
          (sorted_unique_strings (or_nil p.paths ++ file ∷ rest)) file listed same))

-- An approval of the proposal by a trusted reviewer who is not its author.
pub record Approves (p : ProtectedChecksPolicy) (proposal review : StoredEvent) : Type 0 where
  pub submitted : review.event.kind ≡ "review.submit"
  pub about : review.event.subject ≡ proposal.id
  pub positive : review.event.verdict ≡ "approve"
  pub independent : review.event.actor ≢ proposal.event.actor
  pub trusted : mem review.event.actor p.trusted_reviewers ≡ true

-- No review of the proposal by the same actor has a higher sequence number.
abbrev pub Newest : List StoredEvent → StoredEvent → StoredEvent → Type 0
Newest events proposal review =
    All
      (λ e.
        e.event.kind ≡ "review.submit"
        → e.event.subject ≡ proposal.id
        → e.event.actor ≡ review.event.actor
        → e.event.sequence ≤ review.event.sequence)
      events

-- The approvals that a protected change has when its evaluation is ready.
pub record Guarded (p : ProtectedChecksPolicy) (proposal : StoredEvent) (events : List StoredEvent)
    : Type 0 where
  pub approvals : List StoredEvent
  pub enough : (n : ℕ) → p.required_approvals ≡ pos n → n ≤ length approvals
  pub one_each : distinct (actors approvals) ≡ true
  pub drawn : All (λ review. Mem review events) approvals
  pub newest : All (Newest events proposal) approvals
  pub qualify : All (Approves p proposal) approvals

Approves-of :
    (p : ProtectedChecksPolicy) (proposal review : StoredEvent)
    → protection_review_qualifies review proposal p ≡ true
    → Approves p proposal review
unfolding protection_review_qualifies actor_listed
Approves-of p proposal review h = record {
  submitted = ground (arith, h, eq_iff review.event.kind "review.submit");
  about = ground (arith, h, eq_iff review.event.subject proposal.id);
  positive = ground (arith, h, eq_iff review.event.verdict "approve");
  independent = λ e. ground (arith, h, e, eq_iff review.event.actor proposal.event.actor);
  trusted = ground (arith, h);
}

current-Newest :
    (events : List StoredEvent) (proposal : StoredEvent)
    → All (Newest events proposal) (current_reviews events proposal.id)
current-Newest events proposal =
    All-map _ (Newest events proposal)
      (λ v h.
        All-map _ _
          (λ e le kind subject same.
            le
              (unfold is_review_of in
                ground (
                  arith,
                  kind,
                  subject,
                  eq_iff e.event.kind "review.submit",
                  eq_iff e.event.subject proposal.id,
                ))
              same)
          events h)
      (current_reviews events proposal.id) (current_reviews-IsCurrent events proposal.id).latest

-- When the policy protects anything and a ready proposal changes `.hn/policy.json`, then there are
-- events, at least as many as the required approvals and each by another actor, that are reviews of the
-- proposal with the verdict to approve, by a trusted reviewer who is not the author of the proposal
-- and has no later review of it. The map must find each fact by its ID, which is not empty.
pub ready_guards_policy :
    (repository : Repository) (proposal : StoredEvent) (events : List StoredEvent)
    (by_id : Dict StoredEvent) (e : ProposalEvaluation) (p : ProtectedChecksPolicy)
    (changed : List String)
    → All (Known by_id) events
    → evaluate_visible repository proposal events ≡ ok e
    → e.ready ≡ true
    → e.policy.protected_checks ≡ some p
    → repository.changed_paths proposal.event.base proposal.event.head ≡ ok changed
    → mem ".hn/policy.json" changed ≡ true
    → Guarded p proposal events
ready_guards_policy repository proposal events by_id e p changed known run ready has_p diff m =
    let v = evaluated repository proposal events e run in
    let s =
      shape repository e.policy proposal events by_id known p e.protected_checks has_p
        v.protected in
    let same : s.changed ≡ changed =
      ground (arith, s.inspected, ap (context "protected checks: %w" []) diff) in
    let touched =
      ap (λ xs. mem ".hn/policy.json" (changed_protected_paths e.policy xs)) same
      ∙ policy_file_protected e.policy p changed has_p m in
    let qualifies = λ (r : StoredEvent). protection_review_qualifies r proposal p in
    let reviews = current_reviews events proposal.id in
    let full : lt_int (length (qualified proposal events p)) p.required_approvals ≡ false =
      unfold mem in ground (arith, v.is_ready, ready, ap protection_short s.evaluation, touched) in
    record {
      approvals = qualified proposal events p;
      enough = λ n required. ground (arith, full, required);
      one_each = protected-distinct by_id events known e.policy proposal p;
      drawn =
          All-select (λ r. Mem r events) qualifies reviews
            (current_reviews-IsCurrent events proposal.id).drawn;
      newest =
          All-select (Newest events proposal) qualifies reviews (current-Newest events proposal);
      qualify =
          All-map (λ r. qualifies r ≡ true) (Approves p proposal) (Approves-of p proposal)
            (qualified proposal events p) (All-select_test qualifies reviews);
    }
