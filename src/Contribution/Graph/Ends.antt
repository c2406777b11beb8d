-- ===== src/Contribution/Graph/Ends.antt =====
-- internal/contribution/model.go: that `Reduce` ends.
use hubnot.Prelude.{
  ◌≢◌, ◌≡◌, ◌≤◌, ℕ, String, List, [], ◌∷◌, Result, err, out_of_fuel, arith, Result-cases, inl, inr,
  if◌then◌else◌,
}
use hubnot.Prelude.Strings.{mem}
use hubnot.Contribution.Quota.{Limits, validate_cost, validate_limits}
use hubnot.Contribution.Rules.{
  Rule, ContributionPolicy, validate_rules, validate_contributions, validate_ref,
  validate_authority,
}
use hubnot.Contribution.Records.{Verified}
use hubnot.Contribution.Graph.Facts.{FactTable, Sources, get_fact, fact_fuel}
use hubnot.Contribution.Graph.Nodes.{
  Scope, Collection, nothing_collected, collect_record, collect_records, intent_conflicts,
  start_reduction, Reduction,
}
use hubnot.Contribution.Graph.Signers.{find_fact, baseline_facts, baseline_closed}
use hubnot.Contribution.Graph.Decisions.{decision_valid, check_decisions}
use hubnot.Contribution.Graph.Admission.{Grounds, Admission, admit, admit_fuel, admit_all}
use hubnot.Contribution.Graph.Enough.{find_fact-enough, check_decisions-enough, admit_all-enough}
use hubnot.Contribution.Graph.Reduced.{view_of-total}
use hubnot.Contribution.Graph.View.{
  sources_of, check_input, gather_records, gather_evidence, reduce,
}

-- A run that did not run out of fuel.
abbrev Returns {ℓ} : {A : Type ℓ} → Result A → Type ℓ
Returns run = run ≢ err out_of_fuel

validate_rules-Returns :
    (seen : List String) (rules : List Rule) → Returns (validate_rules seen rules)
unfolding validate_rules
validate_rules-Returns seen [] x = ground (arith, x)
validate_rules-Returns seen (r ∷ rules) x =
    ground (arith, x, validate_rules-Returns (r.operation ∷ seen) rules)

validate_limits-Returns : (l : Limits) → Returns (validate_limits l)
unfolding validate_limits validate_cost
validate_limits-Returns l x = ground (arith, x)

validate_contributions-Returns : (p : ContributionPolicy) → Returns (validate_contributions p)
unfolding validate_contributions
validate_contributions-Returns p x =
    ground (arith, x, validate_rules-Returns [] p.rules, validate_limits-Returns p.limits)

check_input-Returns : (scope : Scope) (input : List Verified) → Returns (check_input scope input)
unfolding check_input validate_authority validate_ref
check_input-Returns scope input x = ground (arith, x, validate_contributions-Returns scope.policy)

collect_records-Returns :
    (project : String) (input : List Verified) (c : Collection)
    → Returns (collect_records project input c)
unfolding collect_records
collect_records-Returns project [] c x = ground (arith, x)
collect_records-Returns project (v ∷ input) c x = ground (
  arith,
  x,
  collect_records-Returns project input (if mem v.id c.seen then c else collect_record project v c),
)

baseline_facts-Returns :
    (s : Sources) (ids : List String) (t : FactTable) → Returns (baseline_facts s ids t)
unfolding baseline_facts
baseline_facts-Returns s [] t x = ground (arith, x)
baseline_facts-Returns s (id ∷ ids) t x = elim (Result-cases (find_fact s id t).0) [
  | inl (f, e) ↦ baseline_facts-Returns s ids (find_fact s id t).1 (ground (arith, x, e))
  | inr (c, e) ↦ ground (arith, x, e)
]

baseline_closed-Returns :
    (baseline ids : List String) (t : FactTable) → Returns (baseline_closed baseline ids t)
unfolding baseline_closed
baseline_closed-Returns baseline [] t x = ground (arith, x)
baseline_closed-Returns baseline (id ∷ ids) t x =
    ground (arith, x, baseline_closed-Returns baseline ids t)

gather_evidence-Returns :
    (scope : Scope) (input : List Verified) → Returns (gather_evidence scope input)
unfolding gather_evidence gather_records
gather_evidence-Returns scope input x = elim (Result-cases (check_input scope input)) [
  | inr (c, e) ↦ check_input-Returns scope input (ground (arith, x, e))
  | inl (u, e) ↦
      elim (Result-cases (collect_records scope.policy.project input nothing_collected)) [
        | inr (c, f) ↦
            collect_records-Returns scope.policy.project input nothing_collected
              (ground (arith, x, e, f))
        | inl (collected, f) ↦
            let s = sources_of scope collected.nodes in
            let t = (intent_conflicts collected.intents [] (start_reduction collected)).1.table in
            elim (Result-cases (baseline_facts s scope.policy.baseline t)) [
              | inr (c, g) ↦
                  baseline_facts-Returns s scope.policy.baseline t (ground (arith, x, e, f, g))
              | inl (table, g) ↦
                  baseline_closed-Returns scope.policy.baseline scope.policy.baseline table
                    (ground (arith, x, e, f, g))
            ]
      ]
]

reduce-Returns :
    (scope : Scope) (input : List Verified)
    → ((id : String) → scope.native id ≢ err out_of_fuel)
    → Returns (reduce scope input)
unfolding reduce
reduce-Returns scope input answers x = elim (Result-cases (gather_evidence scope input)) [
  | inr (c, e) ↦ gather_evidence-Returns scope input (ground (arith, x, e))
  | inl (e, run) ↦
      let (view, viewed) = view_of-total scope input e answers run in ground (arith, x, run, viewed)
]

-- `Reduce` ends on every input, and no search is cut short. The result is never the model's own
-- error; and with any more fuel than the model gives them, a search of `getFact` from outside, a round
-- of the loop that calls `decisionValid` and one of the loop that calls `admit` have the same
-- result and state. The native source never returns the model's own error.
pub reduce_terminates :
    (scope : Scope) (input : List Verified)
    → ((id : String) → scope.native id ≢ err out_of_fuel)
    → (reduce scope input ≢ err out_of_fuel)
      × ((s : Sources) (fuel : ℕ) (id : String) (t : FactTable)
          → fact_fuel s.limits ≤ fuel
          → get_fact fuel s 0 id t ≡ find_fact s id t)
      × ((s : Sources) (fuel : ℕ) (id : String) (ids : List String) (st : Reduction)
          → fact_fuel s.limits ≤ fuel
          → check_decisions s ids ((decision_valid fuel s 0 id st).1)
            ≡ check_decisions s (id ∷ ids) st)
      × ((g : Grounds) (fuel : ℕ) (id : String) (ids : List String) (a : Admission)
          → admit_fuel g.limit ≤ fuel
          → admit_all g ids ((admit fuel g 0 id a).1) ≡ admit_all g (id ∷ ids) a)
reduce_terminates scope input answers =
    (reduce-Returns scope input answers, find_fact-enough, check_decisions-enough, admit_all-enough)
