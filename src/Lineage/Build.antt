-- ===== src/Lineage/Build.antt =====
-- lineage.go: what `buildLineageIndex` returns.
mod Links
mod Parents
mod Collect
pub use Links.{revises, merges}
pub use Parents.{IsLinked}
use hubnot.Prelude.{
  ◌≡◌, ◌∙◌, ap, refl, true, none, String, List, [], ok, arith, >>=-eq-ok, select, ◌>>◌, ◌>>=◌,
}
use mathlib.Core.Path.{subst}
use hubnot.Prelude.Strings.{distinct, mem, str_ltb}
use hubnot.Prelude.Maps.{lookup, slices, slices-each, slices-nil, present}
use hubnot.Prelude.Sort.{sort_strings, sort_nil, sort_by}
use hubnot.Event.{StoredEvent}
use hubnot.Lineage.Index.{
  LineageIndex, link_all, collect_proposals, empty_index, sort_links, validate_acyclic,
  build_lineage_index,
}
use hubnot.Lineage.Query.{merge_ids}
use hubnot.Lineage.Acyclic.{ChainsEnd, validate_acyclic_sound}
use Links.{link_all_successors, link_all-merges, link_all_proposals}
use Parents.{link_all-IsLinked, sort_links-IsLinked, Unlinked-nil, IsLinked-nil}
use Collect.{collect-Collected, collect_links}

module _ (events : List StoredEvent) {index : LineageIndex}
    (built : build_lineage_index events ≡ ok index) where
  record Stages : Type 0 where
    linked : LineageIndex
    run : link_all events (collect_proposals events empty_index) ≡ ok linked
    acyclic : validate_acyclic (sort_links linked) ≡ ok tt
    last : sort_links linked ≡ index

  stages : Stages
  unfolding build_lineage_index
  stages =
      let (linked, run, rest) =
        >>=-eq-ok (link_all events (collect_proposals events empty_index))
          (λ l. validate_acyclic (sort_links l) >> ok (sort_links l)) built in
      let (u, acyclic, same) =
        >>=-eq-ok (validate_acyclic (sort_links linked)) (λ _. ok (sort_links linked)) rest in
      record { linked = linked; run = run; acyclic = acyclic; last = cc same }

  -- The links of a built index agree, and every chain of predecessors ends.
  pub build-IsLinked : distinct (merge_ids events) ≡ true → IsLinked index × ChainsEnd index
  build-IsLinked d =
      let (no_predecessors, no_successors, no_merges) = collect_links events empty_index in
      let v =
        link_all-IsLinked events (collect_proposals events empty_index) d stages.run
          (collect-Collected events empty_index)
          (Unlinked-nil (collect_proposals events empty_index) events no_predecessors)
          (IsLinked-nil (collect_proposals events empty_index) no_predecessors no_successors) in
      (
        subst IsLinked stages.last (sort_links-IsLinked stages.linked v),
        subst ChainsEnd stages.last
            (validate_acyclic_sound (sort_links stages.linked) stages.acyclic),
      )

  -- The successors that a built index lists for an ID are the IDs of the events that revise it, sorted.
  pub build_successors :
      (p : String)
      → slices p index.successors_by_id ≡ sort_strings (merge_ids (select (revises p) events))
  unfolding sort_links
  build_successors p =
      let (no_predecessors, no_successors, no_merges) = collect_links events empty_index in
      ground (
        arith,
        stages.last,
        slices-each sort_strings p stages.linked.successors_by_id sort_nil,
        link_all_successors p events (collect_proposals events empty_index) stages.run,
        no_successors,
        slices-nil {A = String} p,
      )

  -- The merges that a built index lists for an ID are the events that merge it, sorted by their IDs.
  pub build_merges :
      (p : String)
      → slices p index.merge_events_by_id
        ≡ sort_by (λ a b. str_ltb a.id b.id) (select (merges p) events)
  unfolding sort_links sort_by
  build_merges p =
      let (no_predecessors, no_successors, no_merges) = collect_links events empty_index in
      ground (
        arith,
        stages.last,
        slices-each (sort_by (λ a b. str_ltb a.id b.id)) p stages.linked.merge_events_by_id refl,
        link_all-merges p events (collect_proposals events empty_index) stages.run,
        no_merges,
        slices-nil {A = StoredEvent} p,
      )
