-- ===== src/Lineage/Index.antt =====
-- lineage.go: the index of proposals, their predecessors, successors and merges.
use hubnot.Prelude.{
  ℕ, zero, suc, Checked, String, List, [], ◌∷◌, none, some, Result, ok, err, Error, errorf,
  out_of_fuel, str, ◌>>=◌, ◌>>◌, ◌==◌, if◌then◌else◌, length, refuse, not,
}
use hubnot.Prelude.Strings.{str_ltb}
use hubnot.Prelude.Maps.{Dict, lookup, insert, present, push, each, keys}
use hubnot.Prelude.Sort.{sort_by, sort_strings}
use hubnot.Event.{StoredEvent, is_proposal_kind}
use hubnot.Event.Ids.{short_id}

pub record LineageIndex : Type 0 where
  pub proposals : Dict StoredEvent
  pub predecessors : Dict String
  pub successors_by_id : Dict (List String)
  pub merge_events_by_id : Dict (List StoredEvent)

abbrev pub empty_index : LineageIndex
empty_index = record {
  proposals = [];
  predecessors = [];
  successors_by_id = [];
  merge_events_by_id = [];
}

-- The first loop of `buildLineageIndex`.
unfoldable pub collect_proposals : List StoredEvent → LineageIndex → LineageIndex
unfolding is_proposal_kind
collect_proposals [] index = index
collect_proposals (s ∷ events) index = collect_proposals events (
    if is_proposal_kind s.event.kind
    then record index { proposals = insert s.id s index.proposals }
    else index)

-- One round of the second loop.
unfoldable pub link : StoredEvent → LineageIndex → Result LineageIndex
link s index =
    if s.event.kind == "proposal.revise"
    then (do
      refuse (not (present (lookup s.event.subject index.proposals))) (
          errorf "revision %s has unavailable predecessor %s"
            (str (short_id s.id) ∷ str s.event.subject ∷ []))
      ok (record index {
        predecessors = insert s.id s.event.subject index.predecessors;
        successors_by_id = push s.event.subject s.id index.successors_by_id;
      }))
    else if s.event.kind == "proposal.merged"
    then (do
      refuse (not (present (lookup s.event.subject index.proposals))) (
          errorf "merge %s has unavailable proposal %s"
            (str (short_id s.id) ∷ str s.event.subject ∷ []))
      ok (record index { merge_events_by_id = push s.event.subject s index.merge_events_by_id }))
    else ok index

-- The second loop.
unfoldable pub link_all : List StoredEvent → LineageIndex → Result LineageIndex
link_all [] index = ok index
link_all (s ∷ events) index = do linked ← link s index; link_all events linked

unfoldable pub sort_links : LineageIndex → LineageIndex
sort_links index = record index {
  successors_by_id = each sort_strings index.successors_by_id;
  merge_events_by_id = each (sort_by (λ a b. str_ltb a.id b.id)) index.merge_events_by_id;
}

-- The marks of the depth-first search; an ID without a mark was not met.
pub data Mark : Type 0 where
  visiting visited : Mark

abbrev pub cycle_error : String → Error
cycle_error id = errorf "revision lineage contains a cycle at %s" (str (short_id id) ∷ [])

-- The closure `visit` of `validateAcyclic`, with the map `state` passed on, on fuel.
unfoldable pub visit : ℕ → Dict String → String → Dict Mark → Result (Dict Mark)
visit zero predecessors id state = err out_of_fuel
visit (suc fuel) predecessors id state = elim (lookup id state) [
  | some visiting ↦ err (cycle_error id)
  | some visited ↦ ok state
  | none ↦ elim (lookup id predecessors) [
    | none ↦ ok (insert id visited (insert id visiting state))
    | some predecessor ↦ visit fuel predecessors predecessor (insert id visiting state) >>= λ after.
        ok (insert id visited after)
  ]
]

-- Each nested call but the last is on an ID of its own that has a predecessor.
abbrev pub chain_fuel : Dict String → ℕ
chain_fuel predecessors = suc (length predecessors)

unfoldable pub visit_all : Dict String → List String → Dict Mark → Result (Dict Mark)
visit_all predecessors [] state = ok state
visit_all predecessors (id ∷ ids) state = do
  after ← visit (chain_fuel predecessors) predecessors id state
  visit_all predecessors ids after

unfoldable pub validate_acyclic : LineageIndex → Checked
validate_acyclic index = do
  state ← visit_all index.predecessors (sort_strings (keys index.proposals)) []
  ok tt

unfoldable pub build_lineage_index : List StoredEvent → Result LineageIndex
build_lineage_index events = do
  linked ← link_all events (collect_proposals events empty_index)
  let index = sort_links linked
  validate_acyclic index
  ok index
