-- ===== src/Contribution/Graph/Receipts.antt =====
-- internal/contribution/model.go: the receipts of completed intake.
use hubnot.Prelude.{
  Bool, true, false, not, ◌&&◌, ◌||◌, String, List, [], ◌∷◌, Option, none, some, Result, ok, err,
  ◌==◌, if◌then◌else◌, has,
}
use hubnot.Prelude.Maps.{Dict, lookup, push}
use hubnot.Contribution.Quota.{cost_within}
use hubnot.Contribution.Rules.{Request, Permission, evaluate}
use hubnot.Contribution.Records.{Target, Content, Submission, Receipt}
use hubnot.Contribution.Graph.Facts.{FactTable}
use hubnot.Contribution.Graph.Nodes.{GraphRecord, Reduction, invalidate, is_valid}
use hubnot.Contribution.Graph.Decisions.{
  target_eqb, valid_node, submission_of, decision_of, receipt_of,
}

-- `facts[id].Content.Root`, empty for an unknown fact.
unfoldable pub root_of : FactTable → String → String
root_of t id = elim (lookup id t.facts) [ none ↦ "" | some f ↦ f.content.root_id ]

-- A hide or a block is relevant to an intake that it could have forbidden.
unfoldable pub is_relevant : FactTable → String → Content → Target → Bool
is_relevant t actor subject target =
    (target.kind == "actor" && (target.id == actor || target.id == subject.author))
    || (target.kind == "revision"
        && (has (λ parent. target.id == parent || root_of t target.id == root_of t parent)
              subject.parents
            || has (λ r. target.id == r.id || (r.kind == "root" && root_of t target.id == r.id))
                subject.references))

-- A valid decision on a revision or an actor.
unfoldable pub is_moderation : String → Reduction → Bool
is_moderation id st = elim (valid_node decision_of id st) [
  | none ↦ false
  | some (p, d) ↦ not (d.target.kind == "submission")
]

-- The first loop over the evidence of a receipt.
unfoldable pub check_evidence : String → List String → Reduction → Reduction
check_evidence id [] st = st
check_evidence id (evaluated ∷ rest) st = check_evidence id rest (
    if is_moderation evaluated st
    then st
    else invalidate id "invalid evaluated moderation evidence" st)

-- The second loop over the evidence, until it finds the first reason against it.
unfoldable pub evidence_problem :
    Reduction → String → Content → List Target → List String → Option String
evidence_problem st actor subject seen [] = none
evidence_problem st actor subject seen (evaluated ∷ rest) =
    elim (valid_node decision_of evaluated st) [
      | none ↦ evidence_problem st actor subject seen rest
      | some (p, d) ↦
          if has (λ t. target_eqb t d.target) seen
          then some "conflicted evaluated moderation heads"
          else if not (is_relevant st.table actor subject d.target)
          then some "irrelevant evaluated moderation evidence"
          else if d.action == "block" || d.action == "hide"
          then some "evaluated moderation forbids intake"
          else evidence_problem st actor subject (d.target ∷ seen) rest
    ]

-- `Request` of a submission, as an intake sees it.
abbrev pub intake_request : GraphRecord → Submission → Request
intake_request n s = record {
  operation = s.operation;
  actor = n.entry.actor;
  author = s.content.author;
  verified = true;
  dependencies_admitted = true;
  receipt = true;
  manual = false;
  moderator = "";
}

abbrev pub is_permitted : (Permission → Bool) → Result Permission → Bool
is_permitted test (ok p) = test p
is_permitted test (err e) = false

abbrev within_limits : GraphRecord → Receipt → Bool
within_limits n r = elim n.authority.policy [ none ↦ false | some p ↦ cost_within r.cost p.limits ]

unfoldable pub automatic_holds : GraphRecord → GraphRecord → Submission → Receipt → Bool
automatic_holds n s sub r =
    not r.automatic
    || is_permitted (λ p. p.allowed && p.automatic) (evaluate n.authority (intake_request s sub))

-- The end of a round, once the evidence was seen.
unfoldable pub close_receipt :
    String
    → GraphRecord
    → Receipt
    → GraphRecord
    → Submission
    → Dict (List GraphRecord) × Reduction
    → Dict (List GraphRecord) × Reduction
close_receipt id n r s sub (receipts, st) =
    if not (is_valid id st)
    then (receipts, st)
    else elim (evidence_problem st s.entry.actor sub.content [] r.evaluated) [
      | some why ↦ (receipts, invalidate id why st)
      | none ↦
          if not (automatic_holds n s sub r)
          then (receipts, invalidate id "receipt does not satisfy evaluated automatic rule" st)
          else if n.effective
          then (push r.submission n receipts, st)
          else (receipts, st)
    ]

-- One round of the loop over the receipts.
unfoldable pub check_receipt :
    String → Dict (List GraphRecord) × Reduction → Dict (List GraphRecord) × Reduction
check_receipt id (receipts, st) = elim (valid_node receipt_of id st) [
  | none ↦ (receipts, st)
  | some (n, r) ↦ elim (valid_node submission_of r.submission st) [
    | none ↦ (receipts, invalidate id "receipt lacks exact valid submission" st)
    | some (s, sub) ↦
        if not (within_limits n r)
        then (receipts, invalidate id "receipt exceeds evaluated intake bounds" st)
        else close_receipt id n r s sub (receipts, check_evidence id r.evaluated st)
  ]
]

unfoldable pub check_receipts :
    List String → Dict (List GraphRecord) × Reduction → Dict (List GraphRecord) × Reduction
check_receipts [] run = run
check_receipts (id ∷ ids) run = check_receipts ids (check_receipt id run)
