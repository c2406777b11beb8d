-- ===== src/Lineage/Build/Collect.antt =====
-- lineage.go: the first loop of `buildLineageIndex`.
use hubnot.Prelude.{◌≡◌, refl, true, String, List, [], ◌∷◌, arith, eq_refl, Bool-cases, inl, inr}
use hubnot.Prelude.Maps.{lookup, insert, present, lookup-insert}
use hubnot.Event.{StoredEvent, is_proposal_kind}
use hubnot.Lineage.Index.{LineageIndex, collect_proposals}
use hubnot.Lineage.Build.Parents.{Collected}

collect_grows :
    (events : List StoredEvent) (index : LineageIndex) (a : String)
    → present (lookup a index.proposals) ≡ true
    → present (lookup a (collect_proposals events index).proposals) ≡ true
unfolding collect_proposals
collect_grows [] index a h = h
collect_grows (s ∷ events) index a h =
    collect_grows events _ a (ground (arith, lookup-insert s.id a s index.proposals))

pub collect-Collected :
    (events : List StoredEvent) (index : LineageIndex)
    → Collected (collect_proposals events index) events
unfolding collect_proposals
collect-Collected [] index = tt
collect-Collected (s ∷ events) index = (
  λ k.
      collect_grows events _ s.id
        (ground (arith, lookup-insert s.id s.id s index.proposals, eq_refl s.id)),
  collect-Collected events _,
)

-- The first loop records no links.
pub collect_links :
    (events : List StoredEvent) (index : LineageIndex)
    → let out = collect_proposals events index in
      (out.predecessors ≡ index.predecessors)
      × (out.successors_by_id ≡ index.successors_by_id)
      × (out.merge_events_by_id ≡ index.merge_events_by_id)
unfolding collect_proposals
collect_links [] index = (refl, refl, refl)
collect_links (s ∷ events) index = elim (Bool-cases (is_proposal_kind s.event.kind)) [
  | inl proposal ↦
      rw (proposal, collect_proposals)
        (collect_links events (record index { proposals = insert s.id s index.proposals }))
  | inr other ↦ rw (other, collect_proposals) (collect_links events index)
]
