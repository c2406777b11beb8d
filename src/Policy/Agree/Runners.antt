-- ===== src/Policy/Agree/Runners.antt =====
-- policy.go: the passed results of an evaluation against the check of a decision.
use hubnot.Prelude.{
  ◌≡◌, refl, ap, ◌∙◌, arith, String, true, false, List, [], ◌∷◌, ◌==◌, eq_iff, All, All-map,
  All-zip, some, Bool-cases, inl, inr, ok, length, lt_int,
}
use hubnot.Prelude.Strings.{mem}
use hubnot.Prelude.Maps.{Dict, keys, lookup, slices}
use hubnot.Event.{StoredEvent}
use hubnot.Policy.Document.{PolicyDocument, PipelinePolicy, actor_listed, may_request_run}
use hubnot.Policy.Admit.{
  Repository, Gathered, gather, load_definitions, check_runners, request_counts, runner_counts,
  definition_counts,
}
use hubnot.Policy.Admit.Gather.{gather_runner}
use hubnot.Policy.Evaluate.{ids}
use hubnot.Policy.Evaluate.Facts.{Known, mem-ids, enough, lt_int_mono}
use hubnot.Policy.Evaluate.Passed.{Ran, pipeline-Passes}
use hubnot.Policy.Evaluate.Ready.{PipelineReady}
use hubnot.Policy.Evaluate.Results.{request_matches, has_passed, evaluate_pipeline_results}

-- Whatever the repository loads for the names of the policy is in the map.
pub Loads : Repository → String → Dict String → String → Type 0
Loads repository head definitions name =
    (definition : String)
    → repository.load_pipeline head name ≡ ok definition
    → lookup name definitions ≡ some definition

pub definitions_load :
    (repository : Repository) (decision head : String) (pipelines : Dict PipelinePolicy)
    → All (λ name. (d : String) × (repository.load_pipeline head name ≡ ok d)) (keys pipelines)
    → (definitions : Dict String) × (load_definitions repository decision head pipelines
        ≡ ok definitions)
      × ((name : String)
          → mem name (keys pipelines) ≡ true
          → Loads repository head definitions name)
unfolding load_definitions lookup mem Loads
definitions_load repository decision head [] all = ([], refl, λ name m. absurd ground arith)
definitions_load repository decision head ((name, p) ∷ pipelines) all =
    let (d, loaded) = all.0 in
    let (rest, run, found) = definitions_load repository decision head pipelines all.1 in
    (
      (name, d) ∷ rest,
      rw (loaded, run),
      λ n m definition l. elim (Bool-cases (name == n)) [
        | inl same ↦ ground (arith, eq_iff name n, loaded, l)
        | inr other ↦ rw other (found n (ground arith) definition l)
      ],
    )

matches→request :
    (policy : PolicyDocument) (proposal : StoredEvent) (name definition : String) (q : StoredEvent)
    → request_matches proposal.id name definition policy q ≡ true
    → q.event.pipeline ≡ name
    → request_counts policy proposal q ≡ true
unfolding request_matches request_counts
matches→request policy proposal name definition q m pipeline =
    ground (arith, ap (λ n. may_request_run policy n q.event.actor) pipeline)

matches→runner :
    (policy : PolicyDocument) (name : String) (p : PipelinePolicy) (q r : StoredEvent)
    → q.event.pipeline ≡ name
    → lookup name policy.pipelines ≡ some p
    → actor_listed r.event.actor p.trusted_runners ≡ true
    → runner_counts policy q r ≡ true
unfolding runner_counts
matches→runner policy name p q r pipeline listed runner =
    let found : lookup q.event.pipeline policy.pipelines ≡ some p =
      ap (λ n. lookup n policy.pipelines) pipeline ∙ listed in
    ground (arith, found)

matches→definition :
    (policy : PolicyDocument) (proposal : StoredEvent) (definitions : Dict String)
    (name definition : String) (q : StoredEvent)
    → request_matches proposal.id name definition policy q ≡ true
    → q.event.pipeline ≡ name
    → lookup name definitions ≡ some definition
    → definition_counts definitions q ≡ true
unfolding request_matches definition_counts
matches→definition policy proposal definitions name definition q m pipeline loaded =
    let found : lookup q.event.pipeline definitions ≡ some definition =
      ap (λ n. lookup n definitions) pipeline ∙ loaded in
    ground (arith, found)

module _ (repository : Repository) (policy : PolicyDocument) (proposal : StoredEvent)
    (events : List StoredEvent) (by_id : Dict StoredEvent) (known : All (Known by_id) events)
    (evidence : List String) (definitions : Dict String) (decision : String) (start h : Gathered)
    (gathered : gather policy definitions proposal by_id decision evidence start ≡ ok h)
    (listed_ids : List String)
    (carry : (a : String)
      → (a == "") ≡ false
      → mem a listed_ids ≡ true
      → mem a evidence ≡ true) where
  -- A passed result counts.
  result-counts :
      (name definition : String) (p : PipelinePolicy) (r : StoredEvent)
      → lookup name policy.pipelines ≡ some p
      → lookup name definitions ≡ some definition
      → mem r.id evidence ≡ true
      → has_passed r ≡ true
      → Ran by_id (request_matches proposal.id name definition policy) p.trusted_runners r
      → mem r.event.actor (slices name h.runners) ≡ true
  unfolding request_matches
  result-counts name definition p r listed loaded cited passed ran =
      let q = ran.request in
      let pipeline : q.event.pipeline ≡ name =
        ground (arith, ran.matched, eq_iff q.event.pipeline name) in
      rw (← pipeline) (
        gather_runner policy definitions proposal by_id decision evidence start {h = h} r q gathered
          cited ran.known.0 ran.asked ran.kind passed
          (matches→request policy proposal name definition q ran.matched pipeline)
          (matches→runner policy name p q r pipeline listed ran.runner)
          (matches→definition policy proposal definitions name definition q ran.matched pipeline
            loaded))

  pub pipeline-full :
      (name : String) (p : PipelinePolicy)
      → lookup name policy.pipelines ≡ some p
      → Loads repository proposal.event.head definitions name
      → PipelineReady repository policy proposal events listed_ids name
      → lt_int (length (slices name h.runners)) p.required_results ≡ false
  unfolding Loads
  pipeline-full name p listed loads ready =
      let passes =
        pipeline-Passes by_id proposal.id name ready.definition events policy p known listed in
      let e = (evaluate_pipeline_results proposal.id name ready.definition events policy).0 in
      let found = loads ready.definition ready.loaded in
      let cited : All (λ r. mem r.id evidence ≡ true) e.passed =
        All-map
          (λ r.
            (Ran by_id (request_matches proposal.id name ready.definition policy) p.trusted_runners
                r
              × (has_passed r ≡ true))
            × (mem r.id (ids e.passed) ≡ true))
          (λ r. mem r.id evidence ≡ true) (λ r h. carry r.id h.0.0.known.1 (ready.cited r.id h.1))
          e.passed (All-zip _ _ e.passed passes.ran (mem-ids e.passed)) in
      let counted : All (λ r. mem r.event.actor (slices name h.runners) ≡ true) e.passed =
        go name ready.definition p listed found e.passed passes.ran cited in
      lt_int_mono (length e.passed) (length (slices name h.runners)) p.required_results
        (enough e.passed (slices name h.runners) passes.one_each counted)
        (rw (← passes.required) ready.full)
    where
      go :
          (name definition : String) (p : PipelinePolicy)
          → lookup name policy.pipelines ≡ some p
          → lookup name definitions ≡ some definition
          → (rs : List StoredEvent)
          → All
              (λ r.
                Ran by_id (request_matches proposal.id name definition policy) p.trusted_runners r
                × (has_passed r ≡ true))
              rs
          → All (λ r. mem r.id evidence ≡ true) rs
          → All (λ r. mem r.event.actor (slices name h.runners) ≡ true) rs
      go name definition p listed found [] ran cited = tt
      go name definition p listed found (r ∷ rs) ran cited = (
        result-counts name definition p r listed found cited.0 ran.0.1 ran.0.0,
        go name definition p listed found rs ran.1 cited.1,
      )

  pub runners-checked :
      (pipelines : Dict PipelinePolicy)
      → All (λ entry. lookup entry.0 policy.pipelines ≡ some entry.1) pipelines
      → All (Loads repository proposal.event.head definitions) (keys pipelines)
      → All (PipelineReady repository policy proposal events listed_ids) (keys pipelines)
      → check_runners decision h.runners pipelines ≡ ok tt
  unfolding check_runners
  runners-checked [] listed loads ready = refl
  runners-checked ((name, p) ∷ pipelines) listed loads ready =
      rw (pipeline-full name p listed.0 loads.0 ready.0)
        (runners-checked pipelines listed.1 loads.1 ready.1)
