-- ===== src/Contribution/Graph/Gathered/Tables.antt =====
-- internal/contribution/model.go: which steps of `Reduce` change the table of facts.
use hubnot.Prelude.{
  ◌≡◌, refl, ◌∙◌, Bool, not, ◌&&◌, String, List, [], ◌∷◌, ◌++◌, arith, if◌then◌else◌, ◌==◌,
}
use hubnot.Prelude.Maps.{Dict}
use hubnot.Prelude.Sort.{sort_strings}
use hubnot.Policy.Texts.{concat}
use hubnot.Contribution.Rules.{AuthorityRef}
use hubnot.Contribution.Records.{Target, Submission, Receipt, Entry}
use hubnot.Contribution.Graph.Facts.{Sources}
use hubnot.Contribution.Graph.Nodes.{
  GraphRecord, Scope, Reduction, invalidate, invalidate_all, intent_conflicts, Conflict,
}
use hubnot.Contribution.Graph.Signers.{find_fact, check_submission, check_signed}
use hubnot.Contribution.Graph.Decisions.{check_target, follow, bound_depth}
use hubnot.Contribution.Graph.Receipts.{
  check_evidence, close_receipt, check_receipt, check_receipts,
}
use hubnot.Contribution.Graph.Outcomes.{Groups, group_decision, group_decisions}

pub table-invalidate : (id why : String) (st : Reduction) → (invalidate id why st).table ≡ st.table
unfolding invalidate
table-invalidate id why st = ground arith

pub table-invalidate_all :
    (why : String) (ids : List String) (st : Reduction)
    → (invalidate_all why ids st).table ≡ st.table
unfolding invalidate_all
table-invalidate_all why [] st = refl
table-invalidate_all why (id ∷ ids) st =
    table-invalidate_all why ids (invalidate id why st) ∙ table-invalidate id why st

pub table-intent_conflicts :
    (intents : Dict (List String)) (conflicts : List Conflict) (st : Reduction)
    → (intent_conflicts intents conflicts st).1.table ≡ st.table
unfolding intent_conflicts
table-intent_conflicts [] conflicts st = refl
table-intent_conflicts ((k, group) ∷ intents) conflicts st = ground (
  arith,
  table-intent_conflicts intents conflicts st,
  table-intent_conflicts intents
      (conflicts ++ record { key = concat "intent:" k; known_ids = sort_strings group } ∷ [])
      (invalidate_all "conflicting actor/project intent" (sort_strings group) st),
  table-invalidate_all "conflicting actor/project intent" (sort_strings group) st,
)

pub table-check_signed :
    (scope : Scope) (id : String) (n : GraphRecord) (ref : AuthorityRef) (st : Reduction)
    → (check_signed scope id n ref st).table ≡ st.table
unfolding check_signed
table-check_signed scope id n ref st = grind (arith, table-invalidate)

pub table-check_evidence :
    (id : String) (evaluated : List String) (st : Reduction)
    → (check_evidence id evaluated st).table ≡ st.table
unfolding check_evidence
table-check_evidence id [] st = refl
table-check_evidence id (e ∷ rest) st = ground (
  arith,
  table-check_evidence id rest st,
  table-check_evidence id rest (invalidate id "invalid evaluated moderation evidence" st),
  table-invalidate id "invalid evaluated moderation evidence" st,
)

pub table-close_receipt :
    (id : String) (n : GraphRecord) (r : Receipt) (sn : GraphRecord) (sub : Submission)
    (receipts : Dict (List GraphRecord)) (st : Reduction)
    → (close_receipt id n r sn sub (receipts, st)).1.table ≡ st.table
unfolding close_receipt
table-close_receipt id n r sn sub receipts st = grind (arith, table-invalidate)

pub table-check_receipt :
    (id : String) (run : Dict (List GraphRecord) × Reduction)
    → (check_receipt id run).1.table ≡ run.1.table
unfolding check_receipt
table-check_receipt id (receipts, st) =
    grind (arith, table-invalidate, table-close_receipt, table-check_evidence)

pub table-check_receipts :
    (ids : List String) (run : Dict (List GraphRecord) × Reduction)
    → (check_receipts ids run).1.table ≡ run.1.table
unfolding check_receipts
table-check_receipts [] run = refl
table-check_receipts (id ∷ ids) run =
    table-check_receipts ids (check_receipt id run) ∙ table-check_receipt id run

pub table-group_decision :
    (receipts : Dict (List GraphRecord)) (id : String) (run : Groups × Reduction)
    → (group_decision receipts id run).1.table ≡ run.1.table
unfolding group_decision
table-group_decision receipts id (groups, st) = grind (arith, table-invalidate)

pub table-group_decisions :
    (receipts : Dict (List GraphRecord)) (ids : List String) (run : Groups × Reduction)
    → (group_decisions receipts ids run).1.table ≡ run.1.table
unfolding group_decisions
table-group_decisions receipts [] run = refl
table-group_decisions receipts (id ∷ ids) run =
    table-group_decisions receipts ids (group_decision receipts id run)
    ∙ table-group_decision receipts id run

pub table-check_submission :
    (s : Sources) (id : String) (r : Entry) (sub : Submission) (st : Reduction)
    → (check_submission s id r sub st).table ≡ (find_fact s sub.content.revision st.table).1
unfolding check_submission
table-check_submission s id r sub st = grind (arith, table-invalidate)

pub table-check_target :
    (s : Sources) (id : String) (target : Target) (st : Reduction)
    → (check_target s id target st).table ≡ (
        if not (target.kind == "submission") && target.kind == "revision"
        then (find_fact s target.id st.table).1
        else st.table)
unfolding check_target
table-check_target s id target st = grind (arith, table-invalidate)

pub table-follow :
    (id parent : String) (run : Bool × Reduction) → (follow id parent run).table ≡ run.1.table
unfolding follow
table-follow id parent (holds, st) = grind (arith, table-invalidate)

pub table-bound_depth :
    (s : Sources) (id : String) (st : Reduction) → (bound_depth s id st).table ≡ st.table
unfolding bound_depth
table-bound_depth s id st = grind (arith, table-invalidate)
