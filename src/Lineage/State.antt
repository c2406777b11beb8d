-- ===== src/Lineage/State.antt =====
-- lineage.go: about `state`, the summary that governs decisions, merges and runs.
use hubnot.Prelude.{
  ◌≡◌, refl, Bool, true, not, ◌&&◌, inl, inr, String, List, [], ◌∷◌, ok, arith, Option-cases,
  Result-cases, ◌==◌, eq_iff, length, select, has, ltb, is_empty,
}
use hubnot.Prelude.Strings.{mem, distinct}
use hubnot.Prelude.Maps.{lookup, present, slices}
use hubnot.Event.{StoredEvent}
use hubnot.Lineage.Index.{LineageIndex}
use hubnot.Lineage.Query.{
  ProposalLineageState, lineage_state, successors, siblings, root, ancestors, descendants, members,
  merged_members, merge_ids,
}
use hubnot.Lineage.Acyclic.{ChainsEnd}
use hubnot.Lineage.Build.{IsLinked}
use hubnot.Lineage.Ancestors.{ancestors_exact}
use hubnot.Lineage.Descendants.{descendants_exact}
use hubnot.Lineage.Members.{root_total, members_exact, members-distinct}

-- `m` has a merge event in the index.
abbrev pub is_merged : LineageIndex → String → Bool
is_merged index m = not (is_empty (slices m index.merge_events_by_id))

-- What a state says of the index.
pub record Describes (index : LineageIndex) (id : String) (st : ProposalLineageState) : Type 0 where
  pub rooted : root index id ≡ ok st.root_id
  pub has_members : members index id ≡ ok st.member_ids
  pub has_descendants : descendants index id ≡ ok st.descendant_ids
  pub has_ancestors : ancestors index id ≡ ok st.ancestor_ids
  pub candidates : st.merged_candidate_ids ≡ merged_members index st.member_ids
  pub merged_flag : st.merged ≡ ltb 0 (length (merge_ids (slices id index.merge_events_by_id)))
  pub closed_flag : st.lineage_closed ≡ has (λ m. not (m == id)) st.merged_candidate_ids
  pub conflict_flag : st.merge_conflict ≡ ltb 1 (length st.merged_candidate_ids)

pub state-Describes :
    (index : LineageIndex) (id : String) (st : ProposalLineageState)
    → lineage_state index id ≡ ok st
    → Describes index id st
unfolding lineage_state
state-Describes index id st h = ground arith

mem-merged_members :
    (index : LineageIndex) (ids : List String) (a : String)
    → mem a (merged_members index ids) ≡ (mem a ids && is_merged index a)
unfolding merged_members select mem
mem-merged_members index [] a = refl
mem-merged_members index (x ∷ ids) a = ground (arith, mem-merged_members index ids a, eq_iff x a)

distinct-merged_members :
    (index : LineageIndex) (ids : List String)
    → distinct ids ≡ true
    → distinct (merged_members index ids) ≡ true
unfolding merged_members select distinct
distinct-merged_members index [] d = refl
distinct-merged_members index (x ∷ ids) d =
    ground (arith, distinct-merged_members index ids, mem-merged_members index ids x)

-- Two distinct values are not both `id`.
other_of_two :
    (ids : List String) (id : String)
    → distinct ids ≡ true
    → ltb 1 (length ids) ≡ true
    → has (λ m. not (m == id)) ids ≡ true
unfolding has distinct mem
other_of_two [] id d h = absurd (ground arith)
other_of_two (x ∷ []) id d h = absurd (ground arith)
other_of_two (x ∷ y ∷ ids) id d h = ground (arith, eq_iff x id, eq_iff y id, eq_iff y x)

two_of_other :
    (ids : List String) (id : String)
    → mem id ids ≡ true
    → has (λ m. not (m == id)) ids ≡ true
    → ltb 1 (length ids) ≡ true
unfolding has mem
two_of_other [] id m h = absurd (ground arith)
two_of_other (x ∷ []) id m h = ground (arith, eq_iff x id)
two_of_other (x ∷ y ∷ ids) id m h = ground arith

merge_ids_empty :
    (events : List StoredEvent) → ltb 0 (length (merge_ids events)) ≡ not (is_empty events)
merge_ids_empty [] = refl
merge_ids_empty (e ∷ events) = ground arith

module _ (index : LineageIndex) (linked : IsLinked index) (ends : ChainsEnd index) (id : String)
    (known : present (lookup id index.proposals) ≡ true) where
  siblings_total : (ids : List String) × (siblings index id ≡ ok ids)
  unfolding siblings
  siblings_total = elim (Option-cases (lookup id index.predecessors)) [
    | inl e ↦ ([], rw (known, e))
    | inr (p, e) ↦
        (select (λ other. not (other == id)) (slices p index.successors_by_id), rw (known, e))
  ]

  successors_total : successors index id ≡ ok (slices id index.successors_by_id)
  unfolding successors
  successors_total = rw known

  -- `state` returns for every proposal of a built index.
  pub state_total : (st : ProposalLineageState) × (lineage_state index id ≡ ok st)
  unfolding lineage_state
  state_total =
      let (n, d) = ends id known in
      let (r, all, rooted, listed, _) = members_exact index linked ends id known in
      let (higher, above, _) = ancestors_exact index id known d in
      let (lower, below, _) = descendants_exact index id linked known d in
      let (aside, beside) = siblings_total in
      elim (Result-cases (lineage_state index id)) [
        | inl found ↦ found
        | inr (e, failed) ↦ absurd (ground (arith, successors_total))
      ]

  own_member : (st : ProposalLineageState) → Describes index id st → mem id st.member_ids ≡ true
  own_member st v =
      let (r, all, rooted, listed, exact) = members_exact index linked ends id known in
      let (q, rooted', chain, _) = root_total index linked ends id known in
      let same : all ≡ st.member_ids = cc (listed, v.has_members) in
      let top : q ≡ r = cc (rooted, rooted') in rw (← same) ((exact id).1 (rw top at chain))

  pub own_candidate :
      (st : ProposalLineageState)
      → Describes index id st
      → mem id st.merged_candidate_ids ≡ st.merged
  own_candidate st v = ground (
    arith,
    own_member st v,
    mem-merged_members index st.member_ids id,
    v.candidates,
    v.merged_flag,
    merge_ids_empty (slices id index.merge_events_by_id),
  )

  -- Competing merges close the lineage; and a merged proposal whose lineage is closed, so another of
  -- its proposals is merged too, has competing merges.
  pub state_conflict :
      (st : ProposalLineageState)
      → lineage_state index id ≡ ok st
      → (st.merge_conflict ≡ true → st.lineage_closed ≡ true)
        × (st.merged ≡ true → st.lineage_closed ≡ true → st.merge_conflict ≡ true)
  state_conflict st run =
      let v = state-Describes index id st run in
      let once : distinct st.merged_candidate_ids ≡ true =
        rw v.candidates
          (distinct-merged_members index st.member_ids (members-distinct index id v.has_members)) in
      (
        λ c. ground (arith, other_of_two st.merged_candidate_ids id),
        λ m o. ground (arith, two_of_other st.merged_candidate_ids id, own_candidate st v),
      )
