-- ===== src/Lineage/Build/Links.antt =====
-- lineage.go: what the second loop of `buildLineageIndex` records, event by event.
use hubnot.Prelude.{
  ◌≡◌, ◌∙◌, ap, Bool, ◌&&◌, String, List, [], ◌∷◌, ◌++◌, ok, arith, >>=-eq-ok, select, ◌==◌, eq_iff,
  if◌then◌else◌, Bool-cases, inl, inr,
}
use mathlib.Core.List.{append_assoc, append-nil}
use hubnot.Prelude.Maps.{slices, slices-push}
use hubnot.Event.{StoredEvent}
use hubnot.Lineage.Index.{LineageIndex, link, link_all}
use hubnot.Lineage.Query.{merge_ids}

-- `s` is a revision of the proposal `p`.
unfoldable pub revises : String → StoredEvent → Bool
revises p s = s.event.kind == "proposal.revise" && s.event.subject == p

-- `s` records a merge of the proposal `p`.
unfoldable pub merges : String → StoredEvent → Bool
merges p s = s.event.kind == "proposal.merged" && s.event.subject == p

link_successors :
    (p : String) (s : StoredEvent) (index out : LineageIndex)
    → link s index ≡ ok out
    → slices p out.successors_by_id
      ≡ slices p index.successors_by_id ++ (if revises p s then s.id ∷ [] else [])
unfolding link revises
link_successors p s index out h = ground (
  arith,
  slices-push s.event.subject p s.id index.successors_by_id,
  append-nil (slices p index.successors_by_id),
)

link-merges :
    (p : String) (s : StoredEvent) (index out : LineageIndex)
    → link s index ≡ ok out
    → slices p out.merge_events_by_id
      ≡ slices p index.merge_events_by_id ++ (if merges p s then s ∷ [] else [])
unfolding link merges
link-merges p s index out h = ground (
  arith,
  eq_iff s.event.kind "proposal.revise",
  eq_iff s.event.kind "proposal.merged",
  eq_iff "proposal.revise" "proposal.merged",
  slices-push s.event.subject p s index.merge_events_by_id,
  append-nil (slices p index.merge_events_by_id),
)

link_proposals :
    (s : StoredEvent) (index out : LineageIndex)
    → link s index ≡ ok out
    → out.proposals ≡ index.proposals
unfolding link
link_proposals s index out h = ground arith

select_snoc {ℓ} :
    {A : Type ℓ} (keep : A → Bool) (x : A) (xs ys : List A)
    → (ys ++ (if keep x then x ∷ [] else [])) ++ select keep xs ≡ ys ++ select keep (x ∷ xs)
unfolding select
select_snoc keep x xs ys = elim (Bool-cases (keep x)) [
  | inl yes' ↦ rw yes' (append_assoc ys (x ∷ []) (select keep xs))
  | inr no' ↦ rw no' (ap (λ l. l ++ select keep xs) (append-nil ys))
]

map_snoc :
    (keep : StoredEvent → Bool) (x : StoredEvent) (xs : List StoredEvent) (ys : List String)
    → (ys ++ (if keep x then x.id ∷ [] else [])) ++ merge_ids (select keep xs)
      ≡ ys ++ merge_ids (select keep (x ∷ xs))
unfolding select
map_snoc keep x xs ys = elim (Bool-cases (keep x)) [
  | inl yes' ↦ rw yes' (append_assoc ys (x.id ∷ []) (merge_ids (select keep xs)))
  | inr no' ↦ rw no' (ap (λ l. l ++ merge_ids (select keep xs)) (append-nil ys))
]

-- The successors recorded for `p` are the IDs of its revisions, in the order of the events.
pub link_all_successors :
    (p : String) (events : List StoredEvent) (index : LineageIndex) {out : LineageIndex}
    → link_all events index ≡ ok out
    → slices p out.successors_by_id
      ≡ slices p index.successors_by_id ++ merge_ids (select (revises p) events)
unfolding link_all
link_all_successors p [] index h =
    unfold select in ground (arith, append-nil (slices p index.successors_by_id))
link_all_successors p (s ∷ events) index h =
    let (mid, first, rest) = >>=-eq-ok (link s index) (λ i. link_all events i) h in
    link_all_successors p events mid rest
    ∙ ap (λ l. l ++ merge_ids (select (revises p) events)) (link_successors p s index mid first)
    ∙ map_snoc (revises p) s events (slices p index.successors_by_id)

-- The merge events recorded for `p` are its merges, in the order of the events.
pub link_all-merges :
    (p : String) (events : List StoredEvent) (index : LineageIndex) {out : LineageIndex}
    → link_all events index ≡ ok out
    → slices p out.merge_events_by_id
      ≡ slices p index.merge_events_by_id ++ select (merges p) events
unfolding link_all
link_all-merges p [] index h =
    unfold select in ground (arith, append-nil (slices p index.merge_events_by_id))
link_all-merges p (s ∷ events) index h =
    let (mid, first, rest) = >>=-eq-ok (link s index) (λ i. link_all events i) h in
    link_all-merges p events mid rest
    ∙ ap (λ l. l ++ select (merges p) events) (link-merges p s index mid first)
    ∙ select_snoc (merges p) s events (slices p index.merge_events_by_id)

pub link_all_proposals :
    (events : List StoredEvent) (index : LineageIndex) {out : LineageIndex}
    → link_all events index ≡ ok out
    → out.proposals ≡ index.proposals
unfolding link_all
link_all_proposals [] index h = ground arith
link_all_proposals (s ∷ events) index h =
    let (mid, first, rest) = >>=-eq-ok (link s index) (λ i. link_all events i) h in
    link_all_proposals events mid rest ∙ link_proposals s index mid first
