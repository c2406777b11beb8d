-- ===== src/Lineage/Build/Parents.antt =====
-- lineage.go: the maps of predecessors and of successors, one against the other.
use hubnot.Prelude.{
  ◌≡◌, ◌∙◌, true, false, String, List, [], ◌∷◌, none, some, ok, arith, >>=-eq-ok, ◌==◌, eq_iff,
  Bool-cases, inl, inr, All,
}
use mathlib.Core.Path.{subst}
use hubnot.Prelude.Strings.{mem, distinct, mem-append, distinct-snoc}
use hubnot.Prelude.Maps.{
  lookup, insert, present, slices, push, slices-push, slices-each, lookup-insert,
}
use hubnot.Prelude.Sort.{sort_strings, mem-sort_strings, distinct-sort_strings, sort_nil}
use hubnot.Event.{StoredEvent, is_proposal_kind}
use hubnot.Lineage.Index.{LineageIndex, link, link_all, sort_links}
use hubnot.Lineage.Query.{merge_ids}

-- `known`: a revision and its predecessor are proposals of the index.
-- `child` and `parent`: a revision has a predecessor exactly where that lists it as a successor.
pub record IsLinked (index : LineageIndex) : Type 0 where
  pub known :
      (s p : String)
      → lookup s index.predecessors ≡ some p
      → (present (lookup s index.proposals) ≡ true) × (present (lookup p index.proposals) ≡ true)
  pub child :
      (s p : String)
      → lookup s index.predecessors ≡ some p
      → mem s (slices p index.successors_by_id) ≡ true
  pub parent :
      (s p : String)
      → mem s (slices p index.successors_by_id) ≡ true
      → lookup s index.predecessors ≡ some p
  pub once : (p : String) → distinct (slices p index.successors_by_id) ≡ true

-- Each proposal among the events is in the index.
abbrev pub Collected : LineageIndex → List StoredEvent → Type 0
Collected index =
    All (λ s. is_proposal_kind s.event.kind ≡ true → present (lookup s.id index.proposals) ≡ true)

-- What a revision adds.
abbrev revised : StoredEvent → LineageIndex → LineageIndex
revised s index = record index {
  predecessors = insert s.id s.event.subject index.predecessors;
  successors_by_id = push s.event.subject s.id index.successors_by_id;
}

module _ (s : StoredEvent) (index : LineageIndex) (fresh : lookup s.id index.predecessors ≡ none)
    (v : IsLinked index) where
  -- A revision that is not in the index yet is no successor of any proposal.
  unlisted : (p : String) → mem s.id (slices p index.successors_by_id) ≡ false
  unlisted p = ground (arith, v.parent s.id p)

  revised-IsLinked :
      present (lookup s.id index.proposals) ≡ true
      → present (lookup s.event.subject index.proposals) ≡ true
      → IsLinked (revised s index)
  unfolding mem
  revised-IsLinked own subject = record {
    known = λ a p m. ground (
      arith,
      lookup-insert s.id a s.event.subject index.predecessors,
      eq_iff s.id a,
      v.known a p,
    );
    child = λ a p m. ground (
      arith,
      lookup-insert s.id a s.event.subject index.predecessors,
      slices-push s.event.subject p s.id index.successors_by_id,
      mem-append a (slices p index.successors_by_id) (s.id ∷ []),
      eq_iff s.event.subject p,
      v.child a p,
    );
    parent = λ a p m. ground (
      arith,
      lookup-insert s.id a s.event.subject index.predecessors,
      slices-push s.event.subject p s.id index.successors_by_id,
      mem-append a (slices p index.successors_by_id) (s.id ∷ []),
      eq_iff s.event.subject p,
      eq_iff s.id a,
      v.parent a p,
    );
    once = λ p. ground (
      arith,
      slices-push s.event.subject p s.id index.successors_by_id,
      distinct-snoc (slices p index.successors_by_id) s.id,
      v.once p,
      unlisted p,
    );
  }

  link-IsLinked :
      {out : LineageIndex}
      → link s index ≡ ok out
      → (is_proposal_kind s.event.kind ≡ true → present (lookup s.id index.proposals) ≡ true)
      → IsLinked out
  unfolding link is_proposal_kind
  link-IsLinked {out} h c = elim (Bool-cases (s.event.kind == "proposal.revise")) [
    | inl revise ↦
        let same : revised s index ≡ out = ground arith in
        subst IsLinked same (revised-IsLinked (c (ground arith)) (ground arith))
    | inr other ↦ elim (Bool-cases (s.event.kind == "proposal.merged")) [
      | inl merged ↦
          let same : record index {
            merge_events_by_id = push s.event.subject s index.merge_events_by_id;
          }
              ≡ out =
            ground arith in
          subst IsLinked same
            (record { known = v.known; child = v.child; parent = v.parent; once = v.once })
      | inr quiet ↦ let same : index ≡ out = ground arith in subst IsLinked same v
    ]
  ]

-- An event that is not linked yet has no predecessor recorded.
abbrev pub Unlinked : LineageIndex → List StoredEvent → Type 0
Unlinked index = All (λ s. lookup s.id index.predecessors ≡ none)

link_other :
    (s : StoredEvent) (index : LineageIndex) {out : LineageIndex} (a : String)
    → link s index ≡ ok out
    → (s.id == a) ≡ false
    → lookup a out.predecessors ≡ lookup a index.predecessors
unfolding link
link_other s index a h n = ground (arith, lookup-insert s.id a s.event.subject index.predecessors)

link-Unlinked :
    (s : StoredEvent) (index : LineageIndex) {out : LineageIndex} (events : List StoredEvent)
    → link s index ≡ ok out
    → mem s.id (merge_ids events) ≡ false
    → Unlinked index events
    → Unlinked out events
unfolding mem
link-Unlinked s index [] h m u = tt
link-Unlinked s index {out} (e ∷ events) h m u = (
  link_other s index e.id h (ground (arith, eq_iff e.id s.id, eq_iff s.id e.id)) ∙ u.0,
  link-Unlinked s index events h (ground arith) u.1,
)

link_keeps :
    (s : StoredEvent) (index : LineageIndex) {out : LineageIndex}
    → link s index ≡ ok out
    → out.proposals ≡ index.proposals
unfolding link
link_keeps s index h = ground arith

Collected-link :
    (s : StoredEvent) (index : LineageIndex) {out : LineageIndex} (events : List StoredEvent)
    → link s index ≡ ok out
    → Collected index events
    → Collected out events
Collected-link s index {out} events h c = rw (link_keeps s index h) c

pub link_all-IsLinked :
    (events : List StoredEvent) (index : LineageIndex) {out : LineageIndex}
    → distinct (merge_ids events) ≡ true
    → link_all events index ≡ ok out
    → Collected index events
    → Unlinked index events
    → IsLinked index
    → IsLinked out
unfolding link_all distinct
link_all-IsLinked [] index {out} d h c u v =
    let same : index ≡ out = ground arith in subst IsLinked same v
link_all-IsLinked (s ∷ events) index d h c u v =
    let (mid, first, rest) = >>=-eq-ok (link s index) (λ i. link_all events i) h in
    link_all-IsLinked events mid (ground arith) rest (Collected-link s index events first c.1)
      (link-Unlinked s index events first (ground arith) u.1)
      (link-IsLinked s index u.0 v first c.0)

pub sort_links-IsLinked : (index : LineageIndex) → IsLinked index → IsLinked (sort_links index)
unfolding sort_links
sort_links-IsLinked index v = record {
  known = v.known;
  child = λ a p m. ground (
    arith,
    slices-each sort_strings p index.successors_by_id sort_nil,
    mem-sort_strings a (slices p index.successors_by_id),
    v.child a p m,
  );
  parent = λ a p m. v.parent a p (
      ground (
        arith,
        slices-each sort_strings p index.successors_by_id sort_nil,
        mem-sort_strings a (slices p index.successors_by_id),
      ));
  once = λ p. ground (
    arith,
    slices-each sort_strings p index.successors_by_id sort_nil,
    distinct-sort_strings (slices p index.successors_by_id) (v.once p),
  );
}

-- An index without links.
pub Unlinked-nil :
    (index : LineageIndex) (events : List StoredEvent)
    → index.predecessors ≡ []
    → Unlinked index events
unfolding lookup
Unlinked-nil index [] e = tt
Unlinked-nil index (s ∷ events) e = (rw e, Unlinked-nil index events e)

pub IsLinked-nil :
    (index : LineageIndex) → index.predecessors ≡ [] → index.successors_by_id ≡ [] → IsLinked index
unfolding lookup slices mem distinct
IsLinked-nil index e f = record {
  known = λ s p m. absurd (cc (rw e at m));
  child = λ s p m. absurd (cc (rw e at m));
  parent = λ s p m. absurd (cc (rw f at m));
  once = λ p. rw f;
}
