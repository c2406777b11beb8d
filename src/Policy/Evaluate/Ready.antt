-- ===== src/Policy/Evaluate/Ready.antt =====
-- policy.go: `evaluateProposal`, taken apart.
use hubnot.Prelude.{
  ◌≡◌, refl, ap, ◌∙◌, arith, String, true, false, not, ◌&&◌, List, [], ◌∷◌, ◌++◌, All, All-map,
  select, has, Option, length, lt_int, Result, ok, err, context, >>=-eq-ok, str, refuse, errorf,
  is_empty, Argument,
}
use mathlib.Core.Path.{subst}
use hubnot.Prelude.Strings.{mem-append, Within}
use hubnot.Prelude.Maps.{keys}
use hubnot.Prelude.Sort.{sort_strings}
use hubnot.Event.{StoredEvent, is_proposal_kind}
use hubnot.Event.Ids.{short_id}
use hubnot.Event.Order.{sort_stored_events}
use hubnot.Lineage.{build_lineage_index, candidate, lineage_state, ProposalLineageState}
use hubnot.Policy.Document.{PolicyDocument}
use hubnot.Policy.Protected.{ProtectedChecksEvaluation, sorted_unique_strings}
use hubnot.Policy.Admit.{Repository}
use hubnot.Policy.Evaluate.{
  ProposalEvaluation, evaluate_visible, assess, conclude, evaluate_pipelines, trusted_reviews,
  approves, accepts, current_decisions, base_ready, protection_of, protection_short, protection_ids,
  ids, passed_ids, pipeline_short, head_matches,
}
use hubnot.Policy.Evaluate.Results.{evaluate_pipeline_results, PipelineEvaluation}

-- The run of `evaluateProposal` that returned an evaluation.
pub record Evaluated (repository : Repository) (proposal : StoredEvent) (events : List StoredEvent)
    (e : ProposalEvaluation) : Type 0 where
  pub loaded : repository.load_policy proposal.event.base ≡ ok (e.policy, e.policy_digest)
  pub approving : e.approvals ≡ select approves (trusted_reviews e.policy proposal events)
  pub piped :
      evaluate_pipelines repository e.policy proposal events e.code_matches
        (sort_strings (keys e.policy.pipelines))
      ≡ ok e.pipelines
  pub accepting :
      e.accept_decisions
      ≡ sort_stored_events
          (select accepts (current_decisions e.policy e.policy_digest proposal events))
  pub protected : protection_of repository e.policy proposal events ≡ ok e.protected_checks
  pub is_ready : e.ready ≡ (
      base_ready e.code_matches e.policy e.approvals e.pipelines
      && not (protection_short e.protected_checks))
  pub is_accepted : e.accepted ≡ (
      is_empty e.reject_decisions
      && not (lt_int (length e.accept_decisions) e.policy.proposals.required_accepts))
  pub has_evidence :
      e.evidence
      ≡ sorted_unique_strings
          (ids e.approvals ++ passed_ids e.pipelines ++ protection_ids e.protected_checks)

conclude-Evaluated :
    (repository : Repository) (proposal : StoredEvent) (events : List StoredEvent)
    (lineage : ProposalLineageState) (root : StoredEvent) (policy : PolicyDocument)
    (digest : String) (head : Option String) (pipelines : List PipelineEvaluation)
    (protection : Option ProtectedChecksEvaluation)
    → repository.load_policy proposal.event.base ≡ ok (policy, digest)
    → evaluate_pipelines repository policy proposal events
        (head_matches head proposal.event.head)
        (sort_strings (keys policy.pipelines))
      ≡ ok pipelines
    → protection_of repository policy proposal events ≡ ok protection
    → Evaluated repository proposal events
        (conclude proposal events lineage root policy digest head pipelines protection)
unfolding conclude
conclude-Evaluated repository proposal events lineage root policy digest head pipelines protection
      loaded piped protected =
    record {
      loaded = loaded;
      approving = refl;
      piped = piped;
      accepting = refl;
      protected = protected;
      is_ready = refl;
      is_accepted = refl;
      has_evidence = refl;
    }

assess-Evaluated :
    (repository : Repository) (proposal : StoredEvent) (events : List StoredEvent)
    (lineage : ProposalLineageState) (root : StoredEvent) (e : ProposalEvaluation)
    → assess repository proposal events lineage root ≡ ok e
    → Evaluated repository proposal events e
unfolding assess
assess-Evaluated repository proposal events lineage root e run =
    let ((policy, digest), loaded, run5) =
      >>=-eq-ok (repository.load_policy proposal.event.base) _ run in
    let (head, headed, run6) = >>=-eq-ok (repository.proposal_head proposal.id) _ run5 in
    let (pipelines, piped, run7) =
      >>=-eq-ok
        (evaluate_pipelines repository policy proposal events
          (head_matches head proposal.event.head) (sort_strings (keys policy.pipelines)))
        _ run6 in
    let (protection, protected, last) =
      >>=-eq-ok (protection_of repository policy proposal events) _ run7 in
    let same : conclude proposal events lineage root policy digest head pipelines protection ≡ e =
      cc in
    subst (Evaluated repository proposal events) same (
      conclude-Evaluated repository proposal events lineage root policy digest head pipelines
        protection loaded piped protected)

pub evaluated :
    (repository : Repository) (proposal : StoredEvent) (events : List StoredEvent)
    (e : ProposalEvaluation)
    → evaluate_visible repository proposal events ≡ ok e
    → Evaluated repository proposal events e
unfolding evaluate_visible
evaluated repository proposal events e run =
    let (u, kind, run1) =
      >>=-eq-ok
        (refuse (not (is_proposal_kind proposal.event.kind))
          (errorf "%s is not a proposal" (str (short_id proposal.id) ∷ [])))
        _ run in
    let (index, built, run2) = >>=-eq-ok (build_lineage_index events) _ run1 in
    let (lineage, stated, run3) = >>=-eq-ok (lineage_state index proposal.id) _ run2 in
    let (root, rooted, run4) = >>=-eq-ok (candidate index lineage.root_id) _ run3 in
    assess-Evaluated repository proposal events lineage root e run4

-- Every pipeline of a ready evaluation was loaded, has its results, and has them in the evidence.
pub record PipelineReady (repository : Repository) (policy : PolicyDocument)
    (proposal : StoredEvent) (events : List StoredEvent) (evidence : List String) (name : String)
    : Type 0 where
  pub definition : String
  pub loaded : repository.load_pipeline proposal.event.head name ≡ ok definition
  pub full :
      pipeline_short (evaluate_pipeline_results proposal.id name definition events policy).0 ≡ false
  pub cited :
      Within
        (ids (evaluate_pipeline_results proposal.id name definition events policy).0.passed)
        evidence

unwrap {ℓ} :
    {A : Type ℓ} (format : String) (arguments : List Argument) (r : Result A) {a : A}
    → context format arguments r ≡ ok a
    → r ≡ ok a
unwrap format arguments (ok b) h = h
unwrap format arguments (err e) h = absurd cc

pub pipelines-ready :
    (repository : Repository) (policy : PolicyDocument) (proposal : StoredEvent)
    (events : List StoredEvent) (names : List String) {pipelines : List PipelineEvaluation}
    → evaluate_pipelines repository policy proposal events true names ≡ ok pipelines
    → has pipeline_short pipelines ≡ false
    → All (PipelineReady repository policy proposal events (passed_ids pipelines)) names
unfolding evaluate_pipelines has
pipelines-ready repository policy proposal events [] {pipelines} run short = tt
pipelines-ready repository policy proposal events (name ∷ names) {pipelines} run short =
    let (definition, loaded, run1) =
      >>=-eq-ok
        (context "required pipeline %q: %w" (str name ∷ [])
          (repository.load_pipeline proposal.event.head name))
        _ run in
    let (rest, more, last) =
      >>=-eq-ok (evaluate_pipelines repository policy proposal events true names) _ run1 in
    let head = (evaluate_pipeline_results proposal.id name definition events policy).0 in
    let same : head ∷ rest ≡ pipelines = cc in
    let short' : has pipeline_short (head ∷ rest) ≡ false = ap (has pipeline_short) same ∙ short in
    subst
      (λ ps. All (PipelineReady repository policy proposal events (passed_ids ps)) (name ∷ names))
      same
      (
        record {
          definition = definition;
          loaded = unwrap "required pipeline %q: %w" (str name ∷ []) _ loaded;
          full = ground arith;
          cited = λ a m. mem-append a (ids head.passed) (passed_ids rest) ∙ ground (arith, m);
        },
        All-map (PipelineReady repository policy proposal events (passed_ids rest))
            (PipelineReady repository policy proposal events (passed_ids (head ∷ rest)))
            (λ n r. record {
              definition = r.definition;
              loaded = r.loaded;
              full = r.full;
              cited = λ a m.
                  mem-append a (ids head.passed) (passed_ids rest) ∙ ground (arith, r.cited a m);
            })
            names (pipelines-ready repository policy proposal events names more (ground arith)),
      )
