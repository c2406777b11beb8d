-- ===== src/Lineage/Summary.antt =====
-- lineage.go: `buildLineageIndex` followed by `state`.
use hubnot.Prelude.{◌≡◌, true, none, String, List, ok, ◌↔◌, arith}
use hubnot.Prelude.Strings.{mem, distinct}
use hubnot.Prelude.Maps.{lookup, present}
use hubnot.Event.{StoredEvent}
use hubnot.Lineage.Index.{LineageIndex, build_lineage_index}
use hubnot.Lineage.Query.{ProposalLineageState, lineage_state, merge_ids}
use hubnot.Lineage.Chain.{Ascends, Above, Below}
use hubnot.Lineage.Build.{IsLinked, build-IsLinked}
use hubnot.Lineage.Acyclic.{ChainsEnd}
use hubnot.Lineage.Ancestors.{ancestors_exact}
use hubnot.Lineage.Descendants.{descendants_exact}
use hubnot.Lineage.Members.{root_total, members_exact, members_along, root_along}
use hubnot.Lineage.State.{state-Describes, state_total}

-- The IDs that a state lists, told by the chains of predecessors.
pub record Faithful (index : LineageIndex) (id : String) (st : ProposalLineageState) : Type 0 where
  pub rootless : lookup st.root_id index.predecessors ≡ none
  pub climbs : Ascends index.predecessors id st.root_id
  pub members_iff :
      (x : String) → (mem x st.member_ids ≡ true) ↔ Ascends index.predecessors x st.root_id
  pub ancestors_iff : (x : String) → (mem x st.ancestor_ids ≡ true) ↔ Above index.predecessors id x
  pub descendants_iff :
      (x : String) → (mem x st.descendant_ids ≡ true) ↔ Below index.predecessors id x

module _ (index : LineageIndex) (linked : IsLinked index) (ends : ChainsEnd index) where
  state-Faithful :
      (id : String) (st : ProposalLineageState)
      → present (lookup id index.proposals) ≡ true
      → lineage_state index id ≡ ok st
      → Faithful index id st
  state-Faithful id st p run =
      let v = state-Describes index id st run in
      let (n, d) = ends id p in
      let (q, rooted, chain, last) = root_total index linked ends id p in
      let (r, all, rooted', listed, exact) = members_exact index linked ends id p in
      let (higher, above, above_iff) = ancestors_exact index id p d in
      let (lower, below, below_iff) = descendants_exact index id linked p d in
      let top : q ≡ st.root_id = cc (rooted, v.rooted) in
      let top' : r ≡ st.root_id = cc (rooted', v.rooted) in
      let all' : all ≡ st.member_ids = cc (listed, v.has_members) in
      let higher' : higher ≡ st.ancestor_ids = cc (above, v.has_ancestors) in
      let lower' : lower ≡ st.descendant_ids = cc (below, v.has_descendants) in
      record {
        rootless = rw (← top) last;
        climbs = rw (← top) chain;
        members_iff = λ x. rw (← all', ← top') (exact x);
        ancestors_iff = λ x. rw (← higher') (above_iff x);
        descendants_iff = λ x. rw (← lower') (below_iff x);
      }

-- For events with distinct IDs, a built index answers every question about every proposal: `state`
-- returns, its root is the proposal at the end of the chain of predecessors, its members are the IDs
-- that lead to this root, and its ancestors and descendants are those above and below the proposal.
pub built_state :
    (events : List StoredEvent) (index : LineageIndex) (id : String)
    → distinct (merge_ids events) ≡ true
    → build_lineage_index events ≡ ok index
    → present (lookup id index.proposals) ≡ true
    → (st : ProposalLineageState) × (lineage_state index id ≡ ok st) × Faithful index id st
built_state events index id d built p =
    let (linked, ends) = build-IsLinked events built d in
    let (st, run) = state_total index linked ends id p in
    (st, run, state-Faithful index linked ends id st p run)

-- For events with distinct IDs, the states of a proposal and of any proposal on its chain of
-- predecessors agree on the root, the members, the merged members and the competing merges.
pub built_state_agrees :
    (events : List StoredEvent) (index : LineageIndex) (a b : String) (s t : ProposalLineageState)
    → distinct (merge_ids events) ≡ true
    → build_lineage_index events ≡ ok index
    → present (lookup a index.proposals) ≡ true
    → Ascends index.predecessors a b
    → lineage_state index a ≡ ok s
    → lineage_state index b ≡ ok t
    → (s.root_id ≡ t.root_id)
      × (s.member_ids ≡ t.member_ids)
      × (s.merged_candidate_ids ≡ t.merged_candidate_ids)
      × (s.merge_conflict ≡ t.merge_conflict)
built_state_agrees events index a b s t d built p chain run_a run_b =
    let (linked, ends) = build-IsLinked events built d in
    let v = state-Describes index a s run_a in
    let w = state-Describes index b t run_b in
    let same_root = root_along index linked ends chain p in
    let same = members_along index linked ends chain p in
    ground (
      arith, v.rooted, w.rooted, v.has_members, w.has_members, v.candidates, w.candidates,
      v.conflict_flag, w.conflict_flag,
    )
