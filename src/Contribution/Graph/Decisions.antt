-- ===== src/Contribution/Graph/Decisions.antt =====
-- internal/contribution/model.go: the decisions and what they follow, and the completed intake.
use hubnot.Prelude.{
  ℕ, zero, suc, Bool, true, false, not, ◌&&◌, ◌||◌, String, List, [], ◌∷◌, Option, none, some, ok,
  err, ◌==◌, ltb, if◌then◌else◌, int_lt,
}
use hubnot.Prelude.Strings.{mem, remove}
use hubnot.Prelude.Maps.{lookup, insert}
use hubnot.Contribution.Records.{Target, Submission, Decision, Receipt}
use hubnot.Contribution.Graph.Facts.{Sources, fact_fuel}
use hubnot.Contribution.Graph.Nodes.{GraphRecord, Reduction, invalidate, is_valid}
use hubnot.Contribution.Graph.Signers.{find_fact}

-- `==` on targets.
unfoldable pub target_eqb : Target → Target → Bool
target_eqb a b = a.kind == b.kind && a.id == b.id

-- `nodes[id]`, where it is valid and what `part` looks for.
abbrev pub valid_node {ℓ} :
    {A : Type ℓ} → (GraphRecord → Option A) → String → Reduction → Option (GraphRecord × A)
valid_node part id st = elim (lookup id st.nodes) [
  | none ↦ none
  | some n ↦ if not n.valid then none else elim (part n) [ none ↦ none | some a ↦ some (n, a) ]
]

abbrev pub submission_of : GraphRecord → Option Submission
submission_of n = n.entry.submitted

abbrev pub decision_of : GraphRecord → Option Decision
decision_of n = n.entry.decided

abbrev pub receipt_of : GraphRecord → Option Receipt
receipt_of n = n.entry.received

abbrev has_submission : String → Reduction → Bool
has_submission id st = elim (valid_node submission_of id st) [ none ↦ false | some n ↦ true ]

abbrev pub decision_depth : String → Reduction → ℕ
decision_depth id st = elim (lookup id st.decision_depths) [ none ↦ 0 | some d ↦ d ]

-- The switch of `decisionValid` on the kind of the target.
unfoldable pub check_target : Sources → String → Target → Reduction → Reduction
check_target s id target st =
    if target.kind == "submission"
    then (if has_submission target.id st
        then st
        else invalidate id "missing valid submission target" st)
    else if target.kind == "revision"
    then (let (found, table) = find_fact s target.id st.table in
        let after = record st { table = table } in
        elim found [
          | ok f ↦ after
          | err e ↦ invalidate id "missing authenticated revision target" after
        ])
    else st

abbrev pub same_target : Target → String → Reduction → Bool
same_target target id st = elim (lookup id st.nodes) [
  | none ↦ false
  | some p ↦ elim p.entry.decided [ none ↦ false | some d ↦ target_eqb d.target target ]
]

-- The end of a round over the parents: whether the parent holds, and the depth it gives.
unfoldable pub follow : String → String → Bool × Reduction → Reduction
follow id parent (holds, st) =
    if not holds
    then invalidate id "missing or invalid same-target decision parent" st
    else if ltb (decision_depth id st) (suc (decision_depth parent st))
    then record st {
      decision_depths = insert id (suc (decision_depth parent st)) st.decision_depths;
    }
    else st

-- The loop of `decisionValid` over the parents; `valid` is the recursive call.
unfoldable pub decision_parents :
    (String → Reduction → Bool × Reduction) → String → Target → List String → Reduction → Reduction
decision_parents valid id target [] st = st
decision_parents valid id target (parent ∷ parents) st =
    decision_parents valid id target parents
      (follow id parent (if same_target target parent st then valid parent st else (false, st)))

-- The last test of `decisionValid`.
unfoldable pub bound_depth : Sources → String → Reduction → Reduction
bound_depth s id st =
    if int_lt s.limits.depth (decision_depth id st)
    then invalidate id "decision dependency depth exceeded" st
    else st

-- `decisionValid` once the decision is under visit.
unfoldable pub visit_decision :
    (String → Reduction → Bool × Reduction)
    → Sources
    → String
    → Decision
    → Reduction
    → Bool × Reduction
visit_decision valid s id d st =
    let followed = decision_parents valid id d.target d.parents (check_target s id d.target st) in
    let measured = bound_depth s id followed in
    (
      is_valid id measured,
      record measured { visited = id ∷ measured.visited; visiting = remove id measured.visiting },
    )

-- Without fuel the answer is that a decision does not hold. A call beyond the limit of depth makes no
-- further call, so the fuel of `check_decisions` is by that limit.
unfoldable pub decision_valid : ℕ → Sources → ℕ → String → Reduction → Bool × Reduction
decision_valid zero s depth id st = (false, st)
decision_valid (suc fuel) s depth id st = elim (valid_node decision_of id st) [
  | none ↦ (false, st)
  | some (n, d) ↦
      if mem id st.visited
      then (true, st)
      else if int_lt s.limits.depth depth || mem id st.visiting
      then (false, invalidate id "decision cycle/depth exceeded" st)
      else visit_decision (decision_valid fuel s (suc depth)) s id d
          (record st { visiting = id ∷ st.visiting })
]

unfoldable pub check_decisions : Sources → List String → Reduction → Reduction
check_decisions s [] st = st
check_decisions s (id ∷ ids) st =
    check_decisions s ids ((decision_valid (fact_fuel s.limits) s 0 id st).1)
