-- ===== src/Tests/Lineage.antt =====
-- lineage.go on a proposal, two competing revisions of it and the merges of both.
use hubnot.Prelude.{
  ◌≡◌, ◌≢◌, refl, true, false, has, List, [], ◌∷◌, String, ok, err, out_of_fuel, ◌↔◌, select,
}
use hubnot.Prelude.Strings.{mem, distinct, str_ltb}
use hubnot.Prelude.Maps.{lookup, insert, slices, push, each, present}
use hubnot.Prelude.Sort.{sort_strings, sort_by, place}
use hubnot.Event.{StoredEvent, zero_event, stored, is_proposal_kind}
use hubnot.Lineage.{
  LineageIndex, build_lineage_index, collect_proposals, link_all, link, sort_links,
  validate_acyclic, visit, visit_all,
}
use hubnot.Lineage.{
  ProposalLineageState, lineage_state, root, climb, require_proposal, merge_ids, predecessor,
  successors, siblings, ancestors, collect_ancestors, descendants, collect_descendants, push_stack,
  members, merged_members, candidate,
}
use hubnot.Lineage.Chain.{Ascends}
use hubnot.Lineage.Acyclic.{ChainsEnd, validate_acyclic_iff, validate_acyclic_terminates}
use hubnot.Lineage.Build.{build_successors, build_merges, revises, merges}
use hubnot.Lineage.Root.{root_terminates}
use hubnot.Lineage.Summary.{Faithful, built_state, built_state_agrees}

abbrev opened : StoredEvent
opened = stored "a" (record zero_event { kind = "proposal.open"; title = "first" })

abbrev revision : String → StoredEvent
revision id = stored id (record zero_event { kind = "proposal.revise"; subject = "a" })

abbrev merge_of : String → String → StoredEvent
merge_of id proposal =
    stored id (record zero_event { kind = "proposal.merged"; subject = proposal })

abbrev events : List StoredEvent
events = merge_of "m2" "c" ∷ revision "c" ∷ opened ∷ revision "b" ∷ merge_of "m1" "b" ∷ []

abbrev index : LineageIndex
index = record {
  proposals = ("c", revision "c") ∷ ("a", opened) ∷ ("b", revision "b") ∷ [];
  predecessors = ("c", "a") ∷ ("b", "a") ∷ [];
  successors_by_id = ("a", "b" ∷ "c" ∷ []) ∷ [];
  merge_events_by_id = ("c", merge_of "m2" "c" ∷ []) ∷ ("b", merge_of "m1" "b" ∷ []) ∷ [];
}

events-distinct : distinct (merge_ids events) ≡ true
unfolding distinct mem
events-distinct = refl

built : build_lineage_index events ≡ ok index
unfolding build_lineage_index collect_proposals link_all link sort_links validate_acyclic visit
    visit_all lookup insert push each sort_by sort_strings str_ltb is_proposal_kind place
built = refl

known-b : present (lookup "b" index.proposals) ≡ true
unfolding lookup
known-b = refl

to_root : Ascends index.predecessors "b" "a"
unfolding lookup
to_root = Ascends.up "a" refl Ascends.here

built_state_example :
    (st : ProposalLineageState) × (lineage_state index "b" ≡ ok st) × Faithful index "b" st
built_state_example = built_state events index "b" events-distinct built known-b

validate_acyclic_iff_example : (validate_acyclic index ≡ ok tt) ↔ ChainsEnd index
validate_acyclic_iff_example = validate_acyclic_iff index

abbrev looped : LineageIndex
looped = record index { predecessors = ("a", "b") ∷ ("b", "a") ∷ [] }

validate_acyclic_terminates_example : validate_acyclic looped ≢ err out_of_fuel
validate_acyclic_terminates_example = validate_acyclic_terminates looped

root_terminates_example : root looped "b" ≢ err out_of_fuel
root_terminates_example = root_terminates looped "b"

build_successors_example :
    slices "a" index.successors_by_id ≡ sort_strings (merge_ids (select (revises "a") events))
build_successors_example = build_successors events built "a"

build_merges_example :
    slices "b" index.merge_events_by_id
    ≡ sort_by (λ x y. str_ltb x.id y.id) (select (merges "b") events)
build_merges_example = build_merges events built "b"

abbrev all_members : List String
all_members = "a" ∷ "b" ∷ "c" ∷ []

abbrev state_a : ProposalLineageState
state_a = record {
  proposal_id = "a";
  predecessor_id = "";
  successor_ids = "b" ∷ "c" ∷ [];
  sibling_ids = [];
  root_id = "a";
  ancestor_ids = [];
  descendant_ids = "b" ∷ "c" ∷ [];
  member_ids = all_members;
  merge_event_ids = [];
  merged_candidate_ids = "b" ∷ "c" ∷ [];
  merged = false;
  superseded = true;
  lineage_closed = true;
  merge_conflict = true;
}

abbrev state_b : ProposalLineageState
state_b = record {
  proposal_id = "b";
  predecessor_id = "a";
  successor_ids = [];
  sibling_ids = "c" ∷ [];
  root_id = "a";
  ancestor_ids = "a" ∷ [];
  descendant_ids = [];
  member_ids = all_members;
  merge_event_ids = "m1" ∷ [];
  merged_candidate_ids = "b" ∷ "c" ∷ [];
  merged = true;
  superseded = false;
  lineage_closed = true;
  merge_conflict = true;
}

run_a : lineage_state index "a" ≡ ok state_a
unfolding lineage_state predecessor successors siblings root climb ancestors collect_ancestors
    descendants collect_descendants push_stack members merged_members require_proposal candidate
    select has lookup slices sort_strings sort_by str_ltb mem place
run_a = refl

run_b : lineage_state index "b" ≡ ok state_b
unfolding lineage_state predecessor successors siblings root climb ancestors collect_ancestors
    descendants collect_descendants push_stack members merged_members require_proposal candidate
    select has lookup slices sort_strings sort_by str_ltb mem place
run_b = refl

built_state_agrees_example :
    (state_b.root_id ≡ state_a.root_id)
    × (state_b.member_ids ≡ state_a.member_ids)
    × (state_b.merged_candidate_ids ≡ state_a.merged_candidate_ids)
    × (state_b.merge_conflict ≡ state_a.merge_conflict)
built_state_agrees_example =
    built_state_agrees events index "b" "a" state_b state_a events-distinct built known-b to_root
      run_b run_a
