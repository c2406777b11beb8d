-- ===== src/Lineage/Query.antt =====
-- lineage.go: the questions that are asked of a lineage index.
use hubnot.Prelude.{
  ℕ, zero, suc, Bool, false, true, not, ◌&&◌, String, List, [], ◌∷◌, ◌++◌, Option, none, some, map,
  Result, ok, err, Error, errorf, out_of_fuel, str, Checked, ◌>>=◌, ◌>>◌, ◌==◌, length, select, has,
  refuse, is_empty, ltb,
}
use hubnot.Prelude.Strings.{mem}
use hubnot.Prelude.Maps.{Dict, lookup, present, slices}
use hubnot.Prelude.Sort.{sort_strings}
use hubnot.Event.{StoredEvent}
use hubnot.Lineage.Index.{LineageIndex, cycle_error, chain_fuel}

pub record ProposalLineageState : Type 0 where
  pub proposal_id : String
  pub predecessor_id : String
  pub successor_ids : List String
  pub sibling_ids : List String
  pub root_id : String
  pub ancestor_ids : List String
  pub descendant_ids : List String
  pub member_ids : List String
  pub merge_event_ids : List String
  pub merged_candidate_ids : List String
  pub merged : Bool
  pub superseded : Bool
  pub lineage_closed : Bool
  pub merge_conflict : Bool

abbrev pub missing_proposal : String → Error
missing_proposal id = errorf "proposal %s is not in the lineage index" (str id ∷ [])

unfoldable pub require_proposal : LineageIndex → String → Checked
require_proposal index id = refuse (not (present (lookup id index.proposals))) (missing_proposal id)

unfoldable pub candidate : LineageIndex → String → Result StoredEvent
candidate index id = elim (lookup id index.proposals) [
  | none ↦ err (missing_proposal id)
  | some proposal ↦ ok proposal
]

-- The string and the Boolean that the source returns are one `Option`.
unfoldable pub predecessor : LineageIndex → String → Result (Option String)
unfolding require_proposal
predecessor index id = do require_proposal index id; ok (lookup id index.predecessors)

unfoldable pub successors : LineageIndex → String → Result (List String)
unfolding require_proposal
successors index id = do require_proposal index id; ok (slices id index.successors_by_id)

unfoldable pub siblings : LineageIndex → String → Result (List String)
unfolding require_proposal
siblings index id = do
  require_proposal index id
  elim (lookup id index.predecessors) [
    | none ↦ ok []
    | some p ↦ ok (select (λ other. not (other == id)) (slices p index.successors_by_id))
  ]

-- The loop of `root`.
unfoldable pub climb : ℕ → Dict String → List String → String → Result String
climb zero predecessors visited id = err out_of_fuel
climb (suc fuel) predecessors visited id = elim (mem id visited) [
  | true ↦ err (cycle_error id)
  | false ↦ elim (lookup id predecessors) [
    | none ↦ ok id
    | some p ↦ climb fuel predecessors (id ∷ visited) p
  ]
]

-- Each round but the last two is on an ID of its own that has a predecessor.
unfoldable pub root : LineageIndex → String → Result String
unfolding require_proposal
root index id = do
  require_proposal index id
  climb (suc (chain_fuel index.predecessors)) index.predecessors [] id

-- The loop of `ancestors`.
unfoldable pub collect_ancestors :
    ℕ → Dict String → List String → List String → String → Result (List String)
collect_ancestors zero predecessors visited found id = err out_of_fuel
collect_ancestors (suc fuel) predecessors visited found id = elim (lookup id predecessors) [
  | none ↦ ok found
  | some p ↦ elim (mem p visited) [
    | true ↦ err (cycle_error p)
    | false ↦ collect_ancestors fuel predecessors (p ∷ visited) (found ++ p ∷ []) p
  ]
]

unfoldable pub ancestors : LineageIndex → String → Result (List String)
unfolding require_proposal
ancestors index id = do
  require_proposal index id
  found ← collect_ancestors (suc (chain_fuel index.predecessors)) index.predecessors (id ∷ []) [] id
  ok (sort_strings found)

-- The loop of `descendants`. The stack's top is the list's last element in the source and its first
-- here, so what is pushed is put in front in reverse.
unfoldable pub push_stack : List String → List String → List String
push_stack [] stack = stack
push_stack (x ∷ xs) stack = push_stack xs (x ∷ stack)

unfoldable pub collect_descendants :
    ℕ → Dict (List String) → List String → List String → List String → Result (List String)
collect_descendants zero children visited found stack = err out_of_fuel
collect_descendants (suc fuel) children visited found [] = ok found
collect_descendants (suc fuel) children visited found (id ∷ stack) = elim (mem id visited) [
  | true ↦ err (cycle_error id)
  | false ↦
      collect_descendants fuel children (id ∷ visited) (found ++ id ∷ [])
        (push_stack (slices id children) stack)
]

unfoldable pub descendants : LineageIndex → String → Result (List String)
unfolding require_proposal
descendants index id = do
  require_proposal index id
  found ←
      collect_descendants (suc (chain_fuel index.predecessors)) index.successors_by_id (id ∷ []) []
        (push_stack (slices id index.successors_by_id) [])
  ok (sort_strings found)

unfoldable pub members : LineageIndex → String → Result (List String)
members index id = do
  root_id ← root index id
  below ← descendants index root_id
  ok (sort_strings (below ++ root_id ∷ []))

-- The zero value of a string, for a missing key.
abbrev pub or_empty : Option String → String
or_empty none = ""
or_empty (some s) = s

abbrev pub merge_ids : List StoredEvent → List String
merge_ids = map (λ s. s.id)

-- The members with a merge event of their own.
unfoldable pub merged_members : LineageIndex → List String → List String
merged_members index = select (λ member. not (is_empty (slices member index.merge_events_by_id)))

unfoldable pub lineage_state : LineageIndex → String → Result ProposalLineageState
unfolding require_proposal merged_members
lineage_state index id = do
  require_proposal index id
  successor_ids ← successors index id
  sibling_ids ← siblings index id
  root_id ← root index id
  ancestor_ids ← ancestors index id
  descendant_ids ← descendants index id
  member_ids ← members index id
  let merge_event_ids = merge_ids (slices id index.merge_events_by_id)
  let merged_candidate_ids = merged_members index member_ids
  let merged = ltb 0 (length merge_event_ids)
  ok (record {
    proposal_id = id;
    predecessor_id = or_empty (lookup id index.predecessors);
    successor_ids = successor_ids;
    sibling_ids = sibling_ids;
    root_id = root_id;
    ancestor_ids = ancestor_ids;
    descendant_ids = descendant_ids;
    member_ids = member_ids;
    merge_event_ids = merge_event_ids;
    merged_candidate_ids = merged_candidate_ids;
    merged = merged;
    superseded = not merged && ltb 0 (length successor_ids);
    lineage_closed = has (λ m. not (m == id)) merged_candidate_ids;
    merge_conflict = ltb 1 (length merged_candidate_ids);
  })
