-- ===== src/Tests/Graph.antt =====
-- internal/contribution/model.go: runs on the project of `Sample`.
use hubnot.Prelude.{
  ◌≡◌, ◌≢◌, ◌≤◌, ℕ, ◌↔◌, refl, true, false, not, ◌&&◌, [], ◌∷◌, String, some, ok, err, out_of_fuel,
  has, select, ◌==◌, arith, List, is_empty,
}
use mathlib.Core.Path.{subst}
use hubnot.Prelude.Strings.{str_ltb, mem, distinct, remove}
use hubnot.Prelude.Maps.{Dict, lookup, insert, slices, push, each}
use hubnot.Prelude.Sort.{place, sort_by, sort_strings}
use hubnot.Prelude.Int64.{add64, sub64}
use hubnot.Contribution.Checks.{
  valid_hex, valid_id, valid_actor, valid_oid, bounded_text, ascending, valid_ids, valid_actors,
}
use hubnot.Contribution.Quota.{
  usage_positive, usage_nonnegative, usage_within, validate_cost, validate_limits, cost_within,
  add_usage, charge, cost_eqb, usage_eqb,
}
use hubnot.Contribution.Rules.{
  content_operation, author_operation, validate_rules, validate_contributions, validate_ref,
  validate_authority, apply_rule, apply_rules, evaluate_valid, evaluate_under, evaluate,
}
use hubnot.Contribution.Records.{
  Submission, reference_ids, ascending_references, valid_references, dependency_ids,
  validate_content, validate_target, validate_decision, validate_kind, validate_entry,
}
use hubnot.Contribution.Graph.Facts.{
  NativeFact, Sources, FactTable, fact_fuel, depth_of, same_family, deepest, over_budget,
  check_parents, check_references, check_root, check_fact, all_dependencies, measure, examine,
  settle, get_fact,
}
use hubnot.Contribution.Graph.Nodes.{
  GraphRecord, Reduction, invalidate, is_valid, collect_record, collect_records, invalidate_all,
  intent_conflicts,
}
use hubnot.Contribution.Graph.Signers.{
  equal_ids, equal_references, same_content, find_fact, baseline_facts, baseline_closed, binds,
  check_submission, evaluated_authority, signer_problem, check_signed, check_node, check_nodes,
}
use hubnot.Contribution.Graph.Decisions.{
  target_eqb, check_target, follow, decision_parents, bound_depth, visit_decision, decision_valid,
  check_decisions,
}
use hubnot.Contribution.Graph.Receipts.{
  root_of, is_relevant, is_moderation, check_evidence, evidence_problem, automatic_holds,
  close_receipt, check_receipt, check_receipts,
}
use hubnot.Contribution.Graph.Outcomes.{
  push_group, group_decision, group_decisions, group_heads, outcome_of, outcomes_of, outcome_at,
  decision_conflicts, actor_blocked, blocked_actors, shown,
}
use hubnot.Contribution.Graph.Admission.{
  Grounds, Admission, admit, admit_fuel, is_admissible, candidate_of, collect_candidates,
  baseline_candidates, admit_each, weigh, close_admission, admit, admit_all,
}
use hubnot.Contribution.Graph.Visibility.{
  root_members, delete_head, delete_heads, drop_parents, with_heads, heads_of, sees, sight_of_ids,
  push_reverse, sight_of_gates, sight_of_reference, sight_of_references, sight_of_links, darken,
  propagate, visible_ids,
}
use hubnot.Contribution.Graph.Grounds.{Has, Grounded}
use hubnot.Contribution.Graph.Admission.Eligible.{Eligible}
use hubnot.Contribution.Graph.Visibility.Heads.{succeeds}
use hubnot.Contribution.Graph.Visibility.Fixed.{Supported}
use hubnot.Contribution.Graph.Reduced.{reduce_admits, reduce_shows}
use hubnot.Contribution.Graph.Answers.{reduce_leads, gather_evidence-Grounded}
use hubnot.Contribution.Graph.Ends.{reduce_terminates}
use hubnot.Contribution.Graph.Intake.{
  heads_at, add_ids, add_heads, require_exact, require_each, require_root, require_parents,
  require_reference, require_references, intake_evidence,
}
use hubnot.Contribution.Graph.Intake.Cleared.{Cleared, intake_evidence-Cleared}
use hubnot.Contribution.Graph.Intake.Granted.{intake_evidence-grants}
use hubnot.Contribution.Graph.View.{
  sources_of, grounds_of, Evidence, weigh_records, gather_records, check_input, gather_evidence,
  roots_of, decision_heads_of, candidates_of, admitted_ids, more_pending, view_of, reduce,
}
use hubnot.Tests.Sample.{digest, native, scope, input, view, issue, offer, offered}

reduces : reduce scope input ≡ ok view
unfolding str_ltb mem distinct remove lookup insert slices push each place sort_by sort_strings
    add64 sub64 select has valid_hex valid_id valid_actor valid_oid bounded_text ascending valid_ids
    valid_actors usage_positive usage_nonnegative usage_within validate_cost validate_limits
    cost_within add_usage charge cost_eqb usage_eqb content_operation author_operation
    validate_rules validate_contributions validate_ref validate_authority apply_rule apply_rules
    evaluate_valid evaluate_under evaluate reference_ids ascending_references valid_references
    dependency_ids validate_content validate_target validate_decision validate_kind validate_entry
    same_family deepest over_budget check_parents check_references check_root check_fact
    all_dependencies measure examine settle get_fact invalidate is_valid collect_record
    collect_records invalidate_all intent_conflicts equal_ids equal_references same_content
    find_fact baseline_facts baseline_closed binds check_submission evaluated_authority
    signer_problem check_signed check_node check_nodes target_eqb check_target follow
    decision_parents bound_depth visit_decision decision_valid check_decisions root_of is_relevant
    is_moderation check_evidence evidence_problem automatic_holds close_receipt check_receipt
    check_receipts push_group group_decision group_decisions group_heads outcome_of outcomes_of
    outcome_at decision_conflicts actor_blocked blocked_actors shown is_admissible candidate_of
    collect_candidates baseline_candidates admit_each weigh close_admission admit admit_all
    root_members delete_head delete_heads drop_parents with_heads heads_of sees sight_of_ids
    push_reverse sight_of_gates sight_of_reference sight_of_references sight_of_links darken
    propagate visible_ids weigh_records gather_records check_input gather_evidence roots_of
    decision_heads_of candidates_of admitted_ids more_pending view_of reduce
reduces = refl

answers : (id : String) → native id ≢ err out_of_fuel
answers id e = ground (arith, e)

abbrev evidence : Evidence
evidence = (reduce_leads scope input view reduces).0

gathers : gather_evidence scope input ≡ ok evidence
gathers = (reduce_leads scope input view reduces).1

reduce_admits_example :
    (e : Evidence) × (gather_evidence scope input ≡ ok e)
    × ((id : String) → (mem id view.admitted ≡ true) ↔ Eligible (grounds_of scope e) id)
reduce_admits_example = reduce_admits scope input view answers reduces

reduce_shows_example :
    (e : Evidence) × (gather_evidence scope input ≡ ok e)
    × ((id : String) → mem id view.visible ≡ true → mem id view.admitted ≡ true)
    × Supported e.reduction.table (shown e.outcomes) view.heads (λ id. mem id view.visible ≡ true)
    × ((S : String → Type 0)
        → ((id : String) → S id → mem id view.admitted ≡ true)
        → Supported e.reduction.table (shown e.outcomes) view.heads S
        → (id : String) → S id
        → mem id view.visible ≡ true)
reduce_shows_example = reduce_shows scope input view answers reduces

reduce_leads_example :
    (e : Evidence) × (gather_evidence scope input ≡ ok e)
    × ((root id : String)
        → mem id (slices root view.heads)
          ≡ (mem id view.admitted && root_of e.reduction.table id == root)
            && not (has (succeeds e.reduction.table root id) view.admitted))
reduce_leads_example = reduce_leads scope input view reduces

gather_evidence-Grounded_example :
    (nodes : Dict GraphRecord) × ((id : String) (f : NativeFact)
      → Has evidence.reduction.table id f
      → Grounded
          (sources_of scope nodes)
          evidence.reduction.table
          id
          f
          (depth_of id evidence.reduction.table))
gather_evidence-Grounded_example = gather_evidence-Grounded scope input evidence answers gathers

reduce_terminates_example :
    (reduce scope input ≢ err out_of_fuel)
    × ((s : Sources) (fuel : ℕ) (id : String) (t : FactTable)
        → fact_fuel s.limits ≤ fuel
        → get_fact fuel s 0 id t ≡ find_fact s id t)
    × ((s : Sources) (fuel : ℕ) (id : String) (ids : List String) (st : Reduction)
        → fact_fuel s.limits ≤ fuel
        → check_decisions s ids ((decision_valid fuel s 0 id st).1)
          ≡ check_decisions s (id ∷ ids) st)
    × ((g : Grounds) (fuel : ℕ) (id : String) (ids : List String) (a : Admission)
        → admit_fuel g.limit ≤ fuel
        → admit_all g ids ((admit fuel g 0 id a).1) ≡ admit_all g (id ∷ ids) a)
reduce_terminates_example = reduce_terminates scope input answers

clears : intake_evidence view offer ≡ ok (digest "d" ∷ [])
unfolding intake_evidence require_parents require_references require_reference require_root
    require_each require_exact add_heads add_ids heads_at target_eqb slices mem sort_strings sort_by
    place
clears = refl

intake_evidence-Cleared_example :
    (s : Submission) × (offer.entry.submitted ≡ some s) × Cleared view offer s (digest "d" ∷ [])
intake_evidence-Cleared_example = intake_evidence-Cleared view offer (digest "d" ∷ []) clears

clears_offered : Cleared view offer offered (digest "d" ∷ [])
clears_offered =
    let (s, e, c) = intake_evidence-Cleared view offer (digest "d" ∷ []) clears in
    let same : s ≡ offered = ground (arith, e) in
    subst (λ t. Cleared view offer t (digest "d" ∷ [])) same c

headed : is_empty (slices issue view.heads) ≡ false
unfolding slices
headed = refl

intake_evidence-grants_example :
    (found : List String) × (intake_evidence view offer ≡ ok found)
    × ((x : String) → mem x found ≡ mem x (digest "d" ∷ []))
intake_evidence-grants_example =
    intake_evidence-grants view offer offered (digest "d" ∷ []) refl refl clears_offered tt
      ((λ root. headed), tt)
