-- ===== src/Contribution/Graph/Visibility.antt =====
-- internal/contribution/model.go: the heads of each root, and the fixed point of visibility.
pub mod Gates
mod Spread
pub mod Heads
mod Sights
mod Gated
mod Linked
mod Wires
mod Start
pub mod Fixed
use hubnot.Prelude.{
  ℕ, zero, suc, ◌+◌, Bool, true, false, not, ◌&&◌, String, List, [], ◌∷◌, ◌++◌, none, some, Result,
  ok, err, out_of_fuel, ◌==◌, if◌then◌else◌, select, length, is_empty,
}
use hubnot.Prelude.Strings.{mem}
use hubnot.Prelude.Maps.{Dict, lookup, insert, push, slices, present}
use hubnot.Prelude.Sort.{sort_strings}
use hubnot.Policy.Texts.{concat}
use hubnot.Contribution.Records.{Reference, Content}
use hubnot.Contribution.Graph.Facts.{NativeFact, FactTable}
use hubnot.Contribution.Graph.Receipts.{root_of}

-- `facts[id].Content`, whose missing value has no parents and no references.
abbrev pub parents_of : FactTable → String → List String
parents_of t id = elim (lookup id t.facts) [ none ↦ [] | some f ↦ f.content.parents ]

abbrev pub references_of : FactTable → String → List Reference
references_of t id = elim (lookup id t.facts) [ none ↦ [] | some f ↦ f.content.references ]

-- `heads[root][id] = true` for the admitted IDs.
unfoldable pub root_members : FactTable → List String → Dict (List String) → Dict (List String)
root_members t [] heads = heads
root_members t (id ∷ ids) heads = root_members t ids (push (root_of t id) id heads)

-- `delete(heads[root], parent)`
unfoldable pub delete_head : String → String → Dict (List String) → Dict (List String)
delete_head root parent [] = []
delete_head root parent ((r, group) ∷ heads) =
    if r == root
    then (r, select (λ id. not (id == parent)) group) ∷ heads
    else (r, group) ∷ delete_head root parent heads

unfoldable pub delete_heads : String → List String → Dict (List String) → Dict (List String)
delete_heads root [] heads = heads
delete_heads root (parent ∷ parents) heads =
    delete_heads root parents (delete_head root parent heads)

unfoldable pub drop_parents : FactTable → List String → Dict (List String) → Dict (List String)
drop_parents t [] heads = heads
drop_parents t (id ∷ ids) heads =
    drop_parents t ids (delete_heads (root_of t id) (parents_of t id) heads)

-- A root that no head is left of gets no entry in `out.Heads`.
unfoldable pub with_heads : Dict (List String) → Dict (List String)
with_heads [] = []
with_heads ((root, group) ∷ heads) =
    if is_empty group then with_heads heads else (root, sort_strings group) ∷ with_heads heads

-- `out.Heads`, for the admitted IDs.
unfoldable pub heads_of : FactTable → List String → Dict (List String)
heads_of t admitted = with_heads (drop_parents t admitted (root_members t admitted []))

-- `visible`, `reverse` and `queue`.
pub record Sight : Type 0 where
  pub visible : Dict Bool
  pub reverse : Dict (List String)
  pub queue : List String

abbrev pub nothing_seen : Sight
nothing_seen = record { visible = []; reverse = []; queue = [] }

-- `visible[k]`
unfoldable pub sees : String → Dict Bool → Bool
sees k visible = elim (lookup k visible) [ none ↦ false | some b ↦ b ]

abbrev pub gate_of : String → String
gate_of root = concat "root:" root

unfoldable pub sight_of_ids : (String → Bool) → List String → Sight → Sight
sight_of_ids shown [] v = v
sight_of_ids shown (id ∷ ids) v = sight_of_ids shown ids (record v {
  visible = insert id (shown id) v.visible;
  queue = if shown id then v.queue else v.queue ++ id ∷ [];
})

unfoldable pub push_reverse : String → List String → Dict (List String) → Dict (List String)
push_reverse dependent [] reverse = reverse
push_reverse dependent (id ∷ ids) reverse = push_reverse dependent ids (push id dependent reverse)

-- The loop over `out.Heads`.
unfoldable pub sight_of_gates : Dict (List String) → Sight → Sight
sight_of_gates [] v = v
sight_of_gates ((root, group) ∷ heads) v = sight_of_gates heads (record v {
  visible = insert (gate_of root) (not (is_empty group)) v.visible;
  reverse = push_reverse (gate_of root) group v.reverse;
})

-- One round of the loop over the references of an admitted ID.
unfoldable pub sight_of_reference : String → Reference → Sight → Sight
sight_of_reference id r v =
    if r.kind == "revision"
    then record v { reverse = push r.id id v.reverse }
    else if r.kind == "root"
    then record {
      visible =
          if present (lookup (gate_of r.id) v.visible)
          then v.visible
          else insert (gate_of r.id) false v.visible;
      reverse = push (gate_of r.id) id v.reverse;
      queue =
          if present (lookup (gate_of r.id) v.visible)
          then v.queue
          else v.queue ++ gate_of r.id ∷ [];
    }
    else v

unfoldable pub sight_of_references : String → List Reference → Sight → Sight
sight_of_references id [] v = v
sight_of_references id (r ∷ refs) v = sight_of_references id refs (sight_of_reference id r v)

unfoldable pub sight_of_links : FactTable → List String → Sight → Sight
sight_of_links t [] v = v
sight_of_links t (id ∷ ids) v = sight_of_links t ids (sight_of_references id (references_of t id) v)

-- The inner loop: what depends on an item of the queue is not visible either.
unfoldable pub darken : List String → Dict Bool × List String → Dict Bool × List String
darken [] (visible, queue) = (visible, queue)
darken (k ∷ ks) (visible, queue) =
    if sees k visible
    then darken ks (insert k false visible, queue ++ k ∷ [])
    else darken ks (visible, queue)

-- The outer loop; `queue` is what the cursor has not passed.
unfoldable pub propagate : ℕ → Dict (List String) → List String → Dict Bool → Result (Dict Bool)
propagate zero reverse queue visible = err out_of_fuel
propagate (suc fuel) reverse [] visible = ok visible
propagate (suc fuel) reverse (k ∷ queue) visible =
    let (after, more) = darken (slices k reverse) (visible, queue) in
    propagate fuel reverse more after

-- Every item of the queue but the first was visible once.
abbrev pub sight_fuel : Sight → ℕ
sight_fuel v = suc (length v.queue + length v.visible)

-- The admitted IDs that stay visible.
unfoldable pub visible_ids :
    FactTable → (String → Bool) → Dict (List String) → List String → Result (List String)
visible_ids t shown heads admitted =
    let v =
      sight_of_links t admitted (sight_of_gates heads (sight_of_ids shown admitted nothing_seen)) in
    elim (propagate (sight_fuel v) v.reverse v.queue v.visible) [
      | err e ↦ err e
      | ok visible ↦ ok (select (λ id. sees id visible) admitted)
    ]
