-- ===== src/Contribution/Graph/Reduced/Steps.antt =====
-- internal/contribution/model.go: the steps of `Reduce`, and what they leave.
use mathlib.Core.Path.{subst}
use hubnot.Prelude.{
  ◌≡◌, ◌≢◌, ◌↔◌, refl, sym, ◌∙◌, true, String, List, [], ◌∷◌, ok, err, out_of_fuel, arith,
  >>=-eq-ok, ok-injective, ◌==◌, if◌then◌else◌,
}
use hubnot.Prelude.Strings.{mem, mem-append, mem-select, All-mem}
use hubnot.Prelude.Maps.{Dict}
use hubnot.Prelude.Sort.{sort_strings, mem-sort_strings}
use hubnot.Contribution.Records.{Verified, dependency_ids}
use hubnot.Contribution.Graph.Facts.{Sources, depth_of, all_dependencies}
use hubnot.Contribution.Graph.Grounds.{Good, Lower}
use hubnot.Contribution.Graph.Grounds.Found.{no_facts-Good}
use hubnot.Contribution.Graph.Nodes.{
  Scope, Reduction, collect_records, nothing_collected, Collection, Conflict, GraphRecord,
  intent_conflicts, start_reduction,
}
use hubnot.Contribution.Graph.Gathered.Tables.{table-intent_conflicts}
use hubnot.Contribution.Graph.Gathered.{steps-Sound, baseline_facts-Good}
use hubnot.Contribution.Graph.Signers.{baseline_facts, baseline_closed}
use hubnot.Contribution.Graph.Outcomes.{blocked_actors, shown}
use hubnot.Contribution.Graph.Visibility.{heads_of, visible_ids}
use hubnot.Contribution.Graph.Admission.{admit_all, nothing_admitted}
use hubnot.Contribution.Graph.Admission.Eligible.{Eligible, Eligible-candidate, Ranked}
use hubnot.Contribution.Graph.Admission.Exact.{admit_all-exact}
use hubnot.Contribution.Graph.View.{
  Evidence, View, roots_of, decision_heads_of, sources_of, weigh_records, gather_records,
  check_input, gather_evidence, grounds_of, admitted_ids, view_of, reduce,
}

weigh_records-Good :
    (scope : Scope) (s : Sources) (ids : List String) (intents : List Conflict) (st : Reduction)
    → ((id : String) → s.native id ≢ err out_of_fuel)
    → Good s st.table
    → Good s (weigh_records scope s ids intents st).reduction.table
unfolding weigh_records
weigh_records-Good scope s ids intents st answers g = steps-Sound s answers scope ids st g

gather_records-Good :
    (scope : Scope) (collected : Collection) (e : Evidence)
    → ((id : String) → scope.native id ≢ err out_of_fuel)
    → gather_records scope collected ≡ ok e
    → Good (sources_of scope collected.nodes) e.reduction.table
unfolding gather_records
gather_records-Good scope collected e answers run =
    let s = sources_of scope collected.nodes in
    let started = intent_conflicts collected.intents [] (start_reduction collected) in
    let (table, found, run1) =
      >>=-eq-ok (baseline_facts s scope.policy.baseline started.1.table) _ run in
    let (u, closed, run2) =
      >>=-eq-ok (baseline_closed scope.policy.baseline scope.policy.baseline table) _ run1 in
    let begun : Good s started.1.table =
      subst (Good s) (sym (table-intent_conflicts collected.intents [] (start_reduction collected)))
        (no_facts-Good s) in
    let out =
      weigh_records scope s (sort_strings collected.known_ids) started.0
        (record started.1 { table = table }) in
    let same : out ≡ e = ground (arith, run2) in
    subst (λ (x : Evidence). Good s x.reduction.table) same
      (weigh_records-Good scope s (sort_strings collected.known_ids) started.0
        (record started.1 { table = table }) answers
        (baseline_facts-Good s answers scope.policy.baseline started.1.table begun found))

-- The facts of the evidence are grounded.
pub gather_evidence-Good :
    (scope : Scope) (input : List Verified) (e : Evidence)
    → ((id : String) → scope.native id ≢ err out_of_fuel)
    → gather_evidence scope input ≡ ok e
    → (nodes : Dict GraphRecord) × Good (sources_of scope nodes) e.reduction.table
unfolding gather_evidence
gather_evidence-Good scope input e answers run =
    let (checked, passed, run1) = >>=-eq-ok (check_input scope input) _ run in
    let (collected, collects, run2) =
      >>=-eq-ok (collect_records scope.policy.project input nothing_collected)
        (gather_records scope) run1 in
    (collected.nodes, gather_records-Good scope collected e answers run2)

-- Facts that are grounded are ranked by their depths.
pub Good-Ranked :
    (scope : Scope) (nodes : Dict GraphRecord) (e : Evidence)
    → Good (sources_of scope nodes) e.reduction.table
    → Ranked (grounds_of scope e)
Good-Ranked scope nodes e g id f h =
    let held = g.grounded id f h in
    (
      held.bounded,
      λ dep m.
          All-mem (Lower e.reduction.table (depth_of id e.reduction.table))
            (all_dependencies id f.content) dep held.lower
            (unfold all_dependencies in
              ground (
                arith,
                mem-append dep (dependency_ids f.content)
                    (if f.content.root_id == id then [] else f.content.root_id ∷ []),
              )),
    )

-- The parts of a view, by the steps that compute them.
pub record Parts (scope : Scope) (e : Evidence) (view : View) : Type 0 where
  pub sight :
      visible_ids e.reduction.table (shown e.outcomes) view.heads view.admitted ≡ ok view.visible
  pub admits : view.admitted ≡ admitted_ids scope e
  pub leads : view.heads ≡ heads_of e.reduction.table view.admitted
  pub blocks : view.blocked ≡ blocked_actors e.outcomes e.outcomes
  pub roots : view.roots ≡ roots_of e.reduction.table.facts
  pub decides : view.decision_heads ≡ decision_heads_of e.outcomes

pub view_of-Parts :
    (scope : Scope) (e : Evidence) (view : View) → view_of scope e ≡ ok view → Parts scope e view
unfolding view_of
view_of-Parts scope e view run =
    let table = e.reduction.table in
    let admitted = admitted_ids scope e in
    let (visible, sight, made) =
      >>=-eq-ok (visible_ids table (shown e.outcomes) (heads_of table admitted) admitted) _ run in
    subst (Parts scope e) (ok-injective made) (record {
      sight = sight;
      admits = refl;
      leads = refl;
      blocks = refl;
      roots = refl;
      decides = refl;
    })

pub admitted_ids-exact :
    (scope : Scope) (e : Evidence)
    → Ranked (grounds_of scope e)
    → (id : String) → (mem id (admitted_ids scope e) ≡ true) ↔ Eligible (grounds_of scope e) id
unfolding admitted_ids
admitted_ids-exact scope e ranked id =
    let g = grounds_of scope e in
    let ids = sort_strings g.candidate_ids in
    let admits = λ (i : String). mem i (admit_all g ids nothing_admitted).admitted in
    let exact = admit_all-exact g ranked ids (λ i m. mem-sort_strings i g.candidate_ids ∙ m) id in
    (
      λ m. exact.0 (ground (arith, mem-select admits id ids, m)),
      λ el. ground (
        arith,
        mem-select admits id ids,
        exact.1 el,
        mem-sort_strings id g.candidate_ids,
        Eligible-candidate g el,
      ),
    )

module _ (scope : Scope) (input : List Verified) (view : View)
    (run : reduce scope input ≡ ok view) where
  pub view_evidence :
      (e : Evidence) × (gather_evidence scope input ≡ ok e) × (view_of scope e ≡ ok view)
  unfolding reduce
  view_evidence = >>=-eq-ok (gather_evidence scope input) (view_of scope) run

-- The admitted revisions of a view are the eligible ones.
pub admitted-exact :
    (scope : Scope) (e : Evidence) (nodes : Dict GraphRecord)
    → Good (sources_of scope nodes) e.reduction.table
    → (view : View) → Parts scope e view
    → (id : String) → (mem id view.admitted ≡ true) ↔ Eligible (grounds_of scope e) id
admitted-exact scope e nodes good view parts id =
    subst (λ ids. (mem id ids ≡ true) ↔ Eligible (grounds_of scope e) id) (sym parts.admits)
      (admitted_ids-exact scope e (Good-Ranked scope nodes e good) id)
