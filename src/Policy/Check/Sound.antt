-- ===== src/Policy/Check/Sound.antt =====
-- policy.go: the thresholds of a policy that passes `validatePolicy`.
use hubnot.Prelude.{
  ◌≡◌, refl, arith, >>=-eq-ok, ℕ, String, true, false, not, ◌||◌, List, [], ◌∷◌, some, ltb, eqb,
  eq_iff, eq_refl, length, ok, refuse, ℤ, pos, negsuc, lt_int, int_lt, All, ◌≤◌,
}
use hubnot.Prelude.Strings.{mem, distinct}
use hubnot.Prelude.Maps.{Dict}
use hubnot.Policy.Document.{PipelinePolicy, ProtectedChecksPolicy, PolicyDocument}
use hubnot.Policy.Texts.{valid_pipeline_name}
use hubnot.Policy.Validate.{
  validate_actors, validate_actor_list, validate_protected_checks, validate_policy_paths,
  validate_optional_policy,
}
use hubnot.Policy.Check.{
  validate_opening, validate_proposals, validate_optional_memory, validate_pipelines,
  validate_policy, validate_requesters,
}

-- A threshold from 1 on that so many actors, all different, can meet.
pub record CanMeet (threshold : ℤ) (actors : List String) : Type 0 where
  pub count : ℕ
  pub is_count : threshold ≡ pos count
  pub positive : 1 ≤ count
  pub met : count ≤ length actors
  pub one_each : distinct actors ≡ true

actors-apart :
    (name : String) (seen xs : List String)
    → validate_actors name seen xs ≡ ok tt
    → (a : String) → mem a seen ≡ true
    → mem a xs ≡ false
unfolding validate_actors mem
actors-apart name seen [] run a m = refl
actors-apart name seen (x ∷ xs) run a m =
    ground (arith, eq_iff x a, actors-apart name (x ∷ seen) xs (ground arith) a)

actors-distinct :
    (name : String) (seen xs : List String)
    → validate_actors name seen xs ≡ ok tt
    → distinct xs ≡ true
unfolding validate_actors distinct mem
actors-distinct name seen [] run = refl
actors-distinct name seen (x ∷ xs) run = ground (
  arith,
  eq_refl x,
  actors-apart name (x ∷ seen) xs (ground arith) x,
  actors-distinct name (x ∷ seen) xs,
)

list-distinct :
    (name : String) (xs : List String) → validate_actor_list name xs ≡ ok tt → distinct xs ≡ true
unfolding validate_actor_list
list-distinct name xs run = actors-distinct name [] xs run

bounded-CanMeet :
    (threshold : ℤ) (actors : List String)
    → int_lt threshold 1 ≡ false
    → lt_int (length actors) threshold ≡ false
    → distinct actors ≡ true
    → CanMeet threshold actors
bounded-CanMeet (pos n) actors low high d = record {
  count = n;
  is_count = refl;
  positive = ground arith;
  met = ground arith;
  one_each = d;
}
bounded-CanMeet (negsuc n) actors low high d = absurd cc

pipelines-CanMeet :
    (pipelines : Dict PipelinePolicy)
    → validate_pipelines pipelines ≡ ok tt
    → All (λ entry. CanMeet entry.1.required_results entry.1.trusted_runners) pipelines
unfolding validate_pipelines
pipelines-CanMeet [] run = tt
pipelines-CanMeet ((name, p) ∷ pipelines) run =
    let (u1, named, run1) = >>=-eq-ok (refuse (not (valid_pipeline_name name)) _) _ run in
    let (u2, low, run2) =
      >>=-eq-ok (refuse (int_lt p.required_results 1 || lt_int 64 p.required_results) _) _ run1 in
    let (u3, actors, run3) = >>=-eq-ok (validate_actor_list _ p.trusted_runners) _ run2 in
    let (u4, high, run4) =
      >>=-eq-ok (refuse (lt_int (length p.trusted_runners) p.required_results) _) _ run3 in
    let (u5, requested, rest) = >>=-eq-ok (validate_requesters name p.requesters) _ run4 in
    (
      bounded-CanMeet p.required_results p.trusted_runners (ground arith) (ground arith)
          (list-distinct _ p.trusted_runners actors),
      pipelines-CanMeet pipelines rest,
    )

protected-CanMeet :
    (p : ProtectedChecksPolicy)
    → validate_protected_checks p ≡ ok tt
    → CanMeet p.required_approvals p.trusted_reviewers
unfolding validate_protected_checks
protected-CanMeet p run =
    let (u1, paths, run1) = >>=-eq-ok (validate_policy_paths _ p.paths false) _ run in
    let (u2, some_reviewers, run2) =
      >>=-eq-ok
        (refuse (ltb (length p.trusted_reviewers) 1 || ltb 64 (length p.trusted_reviewers)) _) _
        run1 in
    let (u3, actors, last) = >>=-eq-ok (validate_actor_list _ p.trusted_reviewers) _ run2 in
    bounded-CanMeet p.required_approvals p.trusted_reviewers (ground arith) (ground arith)
      (list-distinct _ p.trusted_reviewers actors)

-- Every threshold of the policy can be met.
pub record Demands (policy : PolicyDocument) : Type 0 where
  pub accepting : CanMeet policy.proposals.required_accepts policy.maintainers
  pub few_approvals :
      lt_int (length policy.proposals.trusted_reviewers) policy.proposals.required_approvals ≡ false
  pub reviewers : distinct policy.proposals.trusted_reviewers ≡ true
  pub pipelines :
      All (λ entry. CanMeet entry.1.required_results entry.1.trusted_runners) policy.pipelines
  pub protection :
      (p : ProtectedChecksPolicy)
      → policy.protected_checks ≡ some p
      → CanMeet p.required_approvals p.trusted_reviewers

optional-CanMeet :
    (policy : PolicyDocument) (p : ProtectedChecksPolicy)
    → validate_optional_policy policy ≡ ok tt
    → policy.protected_checks ≡ some p
    → CanMeet p.required_approvals p.trusted_reviewers
unfolding validate_optional_policy
optional-CanMeet policy p run has_p = protected-CanMeet p (ground (arith, has_p, run))

proposals-Demand :
    (policy : PolicyDocument)
    → validate_proposals policy ≡ ok tt
    → CanMeet policy.proposals.required_accepts policy.maintainers
      × (lt_int (length policy.proposals.trusted_reviewers) policy.proposals.required_approvals
          ≡ false)
      × (distinct policy.proposals.trusted_reviewers ≡ true)
unfolding validate_proposals
proposals-Demand policy run =
    let q = policy.proposals in
    let (u1, nonempty, run1) = >>=-eq-ok (refuse (eqb (length policy.maintainers) 0) _) _ run in
    let (u2, maintainers, run2) = >>=-eq-ok (validate_actor_list _ policy.maintainers) _ run1 in
    let (u3, approvals, run3) =
      >>=-eq-ok (refuse (int_lt q.required_approvals 0 || lt_int 64 q.required_approvals) _) _
        run2 in
    let (u4, accepts, run4) =
      >>=-eq-ok
        (refuse
          (int_lt q.required_accepts 1 || lt_int (length policy.maintainers) q.required_accepts) _)
        _ run3 in
    let (u5, reviewers, few) = >>=-eq-ok (validate_actor_list _ q.trusted_reviewers) _ run4 in
    (
      bounded-CanMeet q.required_accepts policy.maintainers (ground arith) (ground arith)
          (list-distinct _ policy.maintainers maintainers),
      ground arith,
      list-distinct _ q.trusted_reviewers reviewers,
    )

-- A policy that passes the check can be satisfied: there are as many different maintainers, runners of
-- each pipeline and reviewers of the protected paths as it requires accepts, results and approvals, of
-- which it requires at least one, and as many different trusted reviewers as it requires approvals.
pub validate_policy-Demands :
    (policy : PolicyDocument) → validate_policy policy ≡ ok tt → Demands policy
unfolding validate_policy
validate_policy-Demands policy run =
    let (u1, opening, run1) = >>=-eq-ok (validate_opening policy) _ run in
    let (u2, proposals, run2) = >>=-eq-ok (validate_proposals policy) _ run1 in
    let (u3, pipelines, run3) = >>=-eq-ok (validate_pipelines policy.pipelines) _ run2 in
    let (u4, memory, optional) = >>=-eq-ok (validate_optional_memory policy.memory) _ run3 in
    let (accepts, few, reviewers) = proposals-Demand policy proposals in
    record {
      accepting = accepts;
      few_approvals = few;
      reviewers = reviewers;
      pipelines = pipelines-CanMeet policy.pipelines pipelines;
      protection = λ p has_p. optional-CanMeet policy p optional has_p;
    }
