-- ===== src/Contribution/Graph/Gathered.antt =====
-- internal/contribution/model.go: the table of facts through `Reduce`.
pub mod Tables
use mathlib.Core.Path.{subst}
use hubnot.Prelude.{
  ℕ, zero, suc, ◌+◌, ◌<◌, ◌≤◌, ◌≡◌, ◌≢◌, refl, sym, ◌∙◌, Bool, true, false, not, ◌&&◌, ◌||◌, String,
  List, [], ◌∷◌, ◌++◌, none, some, Result, ok, err, out_of_fuel, arith, if◌then◌else◌, Bool-cases,
  Option-cases, Result-cases, inl, inr, int_lt, ltb, ◌==◌, pos, negsuc, ℤ,
}
use hubnot.Prelude.Strings.{mem}
use hubnot.Prelude.Maps.{Dict, lookup}
use hubnot.Prelude.Sort.{sort_strings}
use hubnot.Policy.Texts.{concat}
use hubnot.Contribution.Rules.{AuthorityRef}
use hubnot.Contribution.Records.{Target, Submission, Decision, Receipt, Entry}
use hubnot.Contribution.Graph.Facts.{NativeFact, FactTable, Sources, get_fact, fact_fuel}
use hubnot.Contribution.Graph.Grounds.{Has, Good}
use hubnot.Contribution.Graph.Grounds.Found.{get_fact-Good}
use hubnot.Contribution.Graph.Nodes.{
  GraphRecord, Scope, Reduction, invalidate, invalidate_all, intent_conflicts, Conflict,
}
use hubnot.Contribution.Graph.Signers.{
  find_fact, baseline_facts, binds, check_submission, evaluated_authority, signer_problem,
  check_signed, check_node, check_nodes,
}
use hubnot.Contribution.Graph.Decisions.{
  check_target, same_target, follow, bound_depth, decision_parents, visit_decision, decision_valid,
  check_decisions, valid_node, decision_of, receipt_of, submission_of,
}
use hubnot.Contribution.Graph.Receipts.{
  check_evidence, close_receipt, check_receipt, check_receipts, is_moderation,
}
use hubnot.Contribution.Graph.Outcomes.{Groups, group_decision, group_decisions}
use hubnot.Contribution.Graph.Gathered.Tables.{
  table-invalidate, table-check_signed, table-check_submission, table-check_target, table-follow,
  table-bound_depth, table-check_receipts, table-group_decisions, table-intent_conflicts,
}

module _ (s : Sources) (answers : (id : String) → s.native id ≢ err out_of_fuel) where
  pub find_fact-Good : (id : String) (t : FactTable) → Good s t → Good s (find_fact s id t).1
  unfolding find_fact
  find_fact-Good id t g = get_fact-Good s answers id t g

  pub baseline_facts-Good :
      (ids : List String) (t : FactTable) {u : FactTable}
      → Good s t
      → baseline_facts s ids t ≡ ok u
      → Good s u
  unfolding baseline_facts
  baseline_facts-Good [] t g e = ground (arith, g, e)
  baseline_facts-Good (id ∷ ids) t g e = elim (Result-cases (find_fact s id t).0) [
    | inl (f, found) ↦
        baseline_facts-Good ids (find_fact s id t).1 (find_fact-Good id t g) (ground (arith, e))
    | inr (x, found) ↦ absurd (ground (arith, e))
  ]

  -- The facts of a state are grounded.
  abbrev pub Sound : Reduction → Type 0
  Sound st = Good s st.table

  Sound-same : (st : Reduction) {t : FactTable} → st.table ≡ t → Good s t → Sound st
  Sound-same st e g = subst (Good s) (sym e) g

  check_node-Sound :
      (scope : Scope) (id : String) (st : Reduction) → Sound st → Sound (check_node scope s id st)
  unfolding check_node
  check_node-Sound scope id st g = elim (Option-cases (lookup id st.nodes)) [
    | inl e ↦ rw (e, check_node) g
    | inr (n, e) ↦ elim (Bool-cases n.valid) [
      | inr bad ↦ rw (e, bad, check_node) g
      | inl good ↦ elim (Option-cases n.entry.submitted) [
        | inl other ↦
            rw (e, good, other, check_node)
              (Sound-same (check_signed scope id n _ st) (table-check_signed scope id n _ st) g)
        | inr (sub, f) ↦
            rw (e, good, f, check_node)
              (Sound-same (check_submission s id n.entry sub st)
                (table-check_submission s id n.entry sub st)
                (find_fact-Good sub.content.revision st.table g))
      ]
    ]
  ]

  pub check_nodes-Sound :
      (scope : Scope) (ids : List String) (st : Reduction)
      → Sound st
      → Sound (check_nodes scope s ids st)
  unfolding check_nodes
  check_nodes-Sound scope [] st g = g
  check_nodes-Sound scope (id ∷ ids) st g =
      check_nodes-Sound scope ids (check_node scope s id st) (check_node-Sound scope id st g)

  check_target-Sound :
      (id : String) (target : Target) (st : Reduction)
      → Sound st
      → Sound (check_target s id target st)
  check_target-Sound id target st g =
      let same = table-check_target s id target st in
      elim (Bool-cases (not (target.kind == "submission") && target.kind == "revision")) [
        | inl asks ↦
            Sound-same (check_target s id target st) (same ∙ rw asks refl)
              (find_fact-Good target.id st.table g)
        | inr skips ↦ Sound-same (check_target s id target st) (same ∙ rw skips refl) g
      ]

  abbrev Keeps : (String → Reduction → Bool × Reduction) → Type 0
  Keeps valid = (id : String) (st : Reduction) → Sound st → Sound (valid id st).1

  decision_parents-Sound :
      (valid : String → Reduction → Bool × Reduction) (id : String) (target : Target)
      (parents : List String) (st : Reduction)
      → Keeps valid
      → Sound st
      → Sound (decision_parents valid id target parents st)
  unfolding decision_parents
  decision_parents-Sound valid id target [] st keeps g = g
  decision_parents-Sound valid id target (parent ∷ parents) st keeps g =
      let run : Bool × Reduction =
        if same_target target parent st then valid parent st else (false, st) in
      let after : Sound run.1 = asked (same_target target parent st) in
      decision_parents-Sound valid id target parents (follow id parent run) keeps
        (Sound-same (follow id parent run) (table-follow id parent run) after)
    where
      asked : (b : Bool) → Sound ((if b then valid parent st else (false, st)).1)
      asked true = keeps parent st g
      asked false = g

  visit_decision-Sound :
      (valid : String → Reduction → Bool × Reduction) (id : String) (d : Decision) (st : Reduction)
      → Keeps valid
      → Sound st
      → Sound (visit_decision valid s id d st).1
  unfolding visit_decision
  visit_decision-Sound valid id d st keeps g =
      let followed =
        decision_parents-Sound valid id d.target d.parents (check_target s id d.target st) keeps
          (check_target-Sound id d.target st g) in
      let last = decision_parents valid id d.target d.parents (check_target s id d.target st) in
      Sound-same (bound_depth s id last) (table-bound_depth s id last) followed

  decision_valid-Sound : (fuel depth : ℕ) → Keeps (decision_valid fuel s depth)
  unfolding decision_valid
  decision_valid-Sound zero depth id st g = g
  decision_valid-Sound (suc fuel) depth id st g =
      elim (Option-cases (valid_node decision_of id st)) [
        | inl e ↦ rw (e, decision_valid) g
        | inr ((n, d), e) ↦ elim (Bool-cases (mem id st.visited)) [
          | inl met ↦ rw (e, met, decision_valid) g
          | inr new ↦ elim (Bool-cases (int_lt s.limits.depth depth || mem id st.visiting)) [
            | inl stop ↦
                rw (e, new, stop, decision_valid)
                  (Sound-same (invalidate id "decision cycle/depth exceeded" st)
                    (table-invalidate id "decision cycle/depth exceeded" st) g)
            | inr go ↦
                rw (e, new, go, decision_valid)
                  (visit_decision-Sound (decision_valid fuel s (suc depth)) id d
                    (record st { visiting = id ∷ st.visiting })
                    (decision_valid-Sound fuel (suc depth)) g)
          ]
        ]
      ]

  check_decisions-Sound :
      (ids : List String) (st : Reduction) → Sound st → Sound (check_decisions s ids st)
  unfolding check_decisions
  check_decisions-Sound [] st g = g
  check_decisions-Sound (id ∷ ids) st g =
      check_decisions-Sound ids (decision_valid (fact_fuel s.limits) s 0 id st).1
        (decision_valid-Sound (fact_fuel s.limits) 0 id st g)

  pub steps-Sound :
      (scope : Scope) (ids : List String) (st : Reduction)
      → Sound st
      → Sound (
          (group_decisions
            (check_receipts ids ([], check_decisions s ids (check_nodes scope s ids st))).0
            ids
            (
              [],
              (check_receipts ids ([], check_decisions s ids (check_nodes scope s ids st))).1,
            )).1)
  steps-Sound scope ids st g =
      let decided = check_decisions s ids (check_nodes scope s ids st) in
      let (receipts, received) = check_receipts ids ([], decided) in
      Sound-same ((group_decisions receipts ids ([], received)).1)
        (table-group_decisions receipts ids ([], received) ∙ table-check_receipts ids ([], decided))
        (check_decisions-Sound ids (check_nodes scope s ids st) (check_nodes-Sound scope ids st g))
