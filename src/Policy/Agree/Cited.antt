-- ===== src/Policy/Agree/Cited.antt =====
-- policy.go: the evidence that an evaluation names, and the map of events.
use mathlib.Core.Path.{subst}
use hubnot.Prelude.{
  ◌≡◌, refl, sym, ap, ◌∙◌, arith, String, true, ◌||◌, List, [], ◌∷◌, ◌==◌, eq_iff, All, All-map,
  none, some, Option-cases, Bool-cases, inl, inr, ok, >>=-eq-ok, context, str,
}
use hubnot.Prelude.Strings.{mem, mem-append, mem-cons_self}
use hubnot.Prelude.Maps.{Dict, lookup}
use hubnot.Event.{StoredEvent}
use hubnot.Policy.Document.{PolicyDocument}
use hubnot.Policy.Admit.{Repository}
use hubnot.Policy.Evaluate.{ids, passed_ids, evaluate_pipelines}
use hubnot.Policy.Evaluate.Facts.{Known}
use hubnot.Policy.Evaluate.Passed.{pipeline-Passes}
use hubnot.Policy.Evaluate.Results.{PipelineEvaluation, evaluate_pipeline_results}

-- The map has a fact under the ID.
abbrev pub Held : Dict StoredEvent → String → Type 0
Held by_id id = (e : StoredEvent) × (lookup id by_id ≡ some e)

pub ids-Held :
    (by_id : Dict StoredEvent) (xs : List StoredEvent) (a : String)
    → All (Known by_id) xs
    → mem a (ids xs) ≡ true
    → Held by_id a
unfolding mem
ids-Held by_id [] a all m = absurd ground arith
ids-Held by_id (x ∷ xs) a all m = elim (Bool-cases (x.id == a)) [
  | inl same ↦ subst (Held by_id) (ground (arith, eq_iff x.id a)) (x, all.0.0)
  | inr other ↦ ids-Held by_id xs a all.1 (ground arith)
]

pub All-member {ℓ} :
    (P : String → Type ℓ) (xs : List String) → All P xs → (a : String) → mem a xs ≡ true → P a
unfolding mem
All-member P [] all a m = absurd ground arith
All-member P (x ∷ xs) all a m = elim (Bool-cases (x == a)) [
  | inl same ↦ subst P (ground (arith, eq_iff x a)) all.0
  | inr other ↦ All-member P xs all.1 a (ground arith)
]

pub member-All {ℓ} :
    (P : String → Type ℓ) (xs : List String) → ((a : String) → mem a xs ≡ true → P a) → All P xs
unfolding mem
member-All P [] f = tt
member-All P (x ∷ xs) f = (f x (mem-cons_self x xs), member-All P xs (λ a m. f a (ground arith)))

no_pipeline :
    (proposal_id name definition : String) (events : List StoredEvent) (policy : PolicyDocument)
    → lookup name policy.pipelines ≡ none
    → (evaluate_pipeline_results proposal_id name definition events policy).0.passed ≡ []
unfolding evaluate_pipeline_results
no_pipeline proposal_id name definition events policy n = rw (evaluate_pipeline_results, n) refl

module _ (repository : Repository) (policy : PolicyDocument) (proposal : StoredEvent)
    (events : List StoredEvent) (by_id : Dict StoredEvent) (known : All (Known by_id) events) where
  one-Held :
      (name definition a : String)
      → mem a (ids (evaluate_pipeline_results proposal.id name definition events policy).0.passed)
        ≡ true
      → Held by_id a
  one-Held name definition a m = elim (Option-cases (lookup name policy.pipelines)) [
    | inl n ↦
        let none_passed = no_pipeline proposal.id name definition events policy n in
        absurd (unfold mem in ground (arith, ap (λ xs. mem a (ids xs)) none_passed))
    | inr (p, found) ↦
        let passes =
          pipeline-Passes by_id proposal.id name definition events policy p known found in
        ids-Held by_id
          (evaluate_pipeline_results proposal.id name definition events policy).0.passed a
          (All-map _ (Known by_id) (λ r h. h.0.known)
            (evaluate_pipeline_results proposal.id name definition events policy).0.passed
            passes.ran)
          m
  ]

  pub passed-Held :
      (names : List String) {pipelines : List PipelineEvaluation}
      → evaluate_pipelines repository policy proposal events true names ≡ ok pipelines
      → (a : String) → mem a (passed_ids pipelines) ≡ true
      → Held by_id a
  unfolding evaluate_pipelines
  passed-Held [] {pipelines} run a m =
      let same : [] ≡ pipelines = cc in
      absurd (unfold mem in ground (arith, ap (λ ps. mem a (passed_ids ps)) same))
  passed-Held (name ∷ names) {pipelines} run a m =
      let (definition, loaded, run1) =
        >>=-eq-ok
          (context "required pipeline %q: %w" (str name ∷ [])
            (repository.load_pipeline proposal.event.head name))
          _ run in
      let (rest, more, last) =
        >>=-eq-ok (evaluate_pipelines repository policy proposal events true names) _ run1 in
      let head = (evaluate_pipeline_results proposal.id name definition events policy).0 in
      let same : head ∷ rest ≡ pipelines = cc in
      let split : mem a (ids head.passed) || mem a (passed_ids rest) ≡ true =
        sym (mem-append a (ids head.passed) (passed_ids rest))
        ∙ ap (λ ps. mem a (passed_ids ps)) same
        ∙ m in
      elim (Bool-cases (mem a (ids head.passed))) [
        | inl first ↦ one-Held name definition a first
        | inr later ↦ passed-Held names more a (ground arith)
      ]
