-- ===== src/Contribution/Graph/Visibility/Heads.antt =====
-- internal/contribution/model.go: the heads of a root.
use hubnot.Prelude.{
  ◌≡◌, refl, ◌∙◌, Bool, true, false, not, ◌&&◌, ◌||◌, String, List, [], ◌∷◌, some, arith, has,
  select, ◌==◌, eq_iff, if◌then◌else◌, Bool-cases, is_empty, All, All-zip, All-map,
}
use hubnot.Prelude.Strings.{mem, distinct, mem-append, mem-select}
use hubnot.Prelude.Maps.{
  Dict, keys, lookup, slices, push, slices-push, lookup_entries, slices-lookup,
}
use hubnot.Prelude.Sort.{sort_strings, mem-sort_strings, sort_nil, is_empty-sort_strings}
use hubnot.Contribution.Graph.Facts.{FactTable}
use hubnot.Contribution.Graph.Receipts.{root_of}
use hubnot.Contribution.Graph.Visibility.{
  parents_of, root_members, delete_head, delete_heads, drop_parents, with_heads, heads_of,
}

mem-root_members :
    (t : FactTable) (ids : List String) (heads : Dict (List String)) (r h : String)
    → mem h (slices r (root_members t ids heads))
      ≡ mem h (slices r heads) || (mem h ids && root_of t h == r)
unfolding root_members mem
mem-root_members t [] heads r h = ground (arith, Bool-cases (mem h (slices r heads)))
mem-root_members t (id ∷ ids) heads r h = ground (
  arith,
  mem-root_members t ids (push (root_of t id) id heads) r h,
  slices-push (root_of t id) r id heads,
  mem-append h (slices r heads) (id ∷ []),
  eq_iff id h,
  eq_iff (root_of t id) r,
  eq_iff (root_of t h) r,
)

slices-delete_head :
    (root parent r : String) (heads : Dict (List String))
    → slices r (delete_head root parent heads)
      ≡ (if root == r then select (λ id. not (id == parent)) (slices r heads) else slices r heads)
unfolding delete_head slices select
slices-delete_head root parent r [] = ground arith
slices-delete_head root parent r ((k, group) ∷ heads) =
    ground (arith, slices-delete_head root parent r heads, eq_iff k root, eq_iff k r, eq_iff root r)

mem-delete_heads :
    (root : String) (parents : List String) (heads : Dict (List String)) (r h : String)
    → mem h (slices r (delete_heads root parents heads))
      ≡ mem h (slices r heads) && not (root == r && mem h parents)
unfolding delete_heads mem
mem-delete_heads root [] heads r h =
    ground (arith, Bool-cases (mem h (slices r heads)), Bool-cases (root == r))
mem-delete_heads root (p ∷ parents) heads r h = ground (
  arith,
  mem-delete_heads root parents (delete_head root p heads) r h,
  slices-delete_head root p r heads,
  mem-select (λ id. not (id == p)) h (slices r heads),
  eq_iff h p,
  eq_iff p h,
  Bool-cases (root == r),
)

-- Some ID of the list has the root, and the value as a parent.
abbrev pub succeeds : FactTable → String → String → String → Bool
succeeds t r h id = root_of t id == r && mem h (parents_of t id)

mem-drop_parents :
    (t : FactTable) (ids : List String) (heads : Dict (List String)) (r h : String)
    → mem h (slices r (drop_parents t ids heads))
      ≡ mem h (slices r heads) && not (has (succeeds t r h) ids)
unfolding drop_parents has
mem-drop_parents t [] heads r h = ground (arith, Bool-cases (mem h (slices r heads)))
mem-drop_parents t (id ∷ ids) heads r h = ground (
  arith,
  mem-drop_parents t ids (delete_heads (root_of t id) (parents_of t id) heads) r h,
  mem-delete_heads (root_of t id) (parents_of t id) heads r h,
  Bool-cases (mem h (slices r heads)),
)

mem-keys-push :
    (r k id : String) (heads : Dict (List String))
    → mem r (keys (push k id heads)) ≡ (if k == r then true else mem r (keys heads))
unfolding push mem
mem-keys-push r k id [] = refl
mem-keys-push r k id ((j, group) ∷ heads) =
    ground (arith, mem-keys-push r k id heads, eq_iff j k, eq_iff j r, eq_iff k r)

distinct-push :
    (k id : String) (heads : Dict (List String))
    → distinct (keys heads) ≡ true
    → distinct (keys (push k id heads)) ≡ true
unfolding push distinct mem
distinct-push k id [] d = refl
distinct-push k id ((j, group) ∷ heads) d =
    ground (arith, distinct-push k id heads, mem-keys-push j k id heads, eq_iff j k, eq_iff k j)

distinct-root_members :
    (t : FactTable) (ids : List String) (heads : Dict (List String))
    → distinct (keys heads) ≡ true
    → distinct (keys (root_members t ids heads)) ≡ true
unfolding root_members
distinct-root_members t [] heads d = d
distinct-root_members t (id ∷ ids) heads d =
    distinct-root_members t ids (push (root_of t id) id heads)
      (distinct-push (root_of t id) id heads d)

keys-delete_head :
    (root parent : String) (heads : Dict (List String))
    → keys (delete_head root parent heads) ≡ keys heads
unfolding delete_head
keys-delete_head root parent [] = refl
keys-delete_head root parent ((k, group) ∷ heads) =
    ground (arith, keys-delete_head root parent heads)

keys-delete_heads :
    (root : String) (parents : List String) (heads : Dict (List String))
    → keys (delete_heads root parents heads) ≡ keys heads
unfolding delete_heads
keys-delete_heads root [] heads = refl
keys-delete_heads root (p ∷ parents) heads =
    keys-delete_heads root parents (delete_head root p heads) ∙ keys-delete_head root p heads

keys-drop_parents :
    (t : FactTable) (ids : List String) (heads : Dict (List String))
    → keys (drop_parents t ids heads) ≡ keys heads
unfolding drop_parents
keys-drop_parents t [] heads = refl
keys-drop_parents t (id ∷ ids) heads =
    keys-drop_parents t ids (delete_heads (root_of t id) (parents_of t id) heads)
    ∙ keys-delete_heads (root_of t id) (parents_of t id) heads

mem-keys-with_heads :
    (r : String) (heads : Dict (List String))
    → mem r (keys heads) ≡ false
    → mem r (keys (with_heads heads)) ≡ false
unfolding with_heads mem
mem-keys-with_heads r [] m = m
mem-keys-with_heads r ((k, group) ∷ heads) m = ground (arith, mem-keys-with_heads r heads, m)

distinct-with_heads :
    (heads : Dict (List String))
    → distinct (keys heads) ≡ true
    → distinct (keys (with_heads heads)) ≡ true
unfolding with_heads distinct
distinct-with_heads [] d = d
distinct-with_heads ((k, group) ∷ heads) d =
    ground (arith, mem-keys-with_heads k heads, distinct-with_heads heads)

slices-absent :
    (r : String) (heads : Dict (List String)) → mem r (keys heads) ≡ false → slices r heads ≡ []
unfolding slices mem
slices-absent r [] m = refl
slices-absent r ((k, group) ∷ heads) m = ground (arith, slices-absent r heads, m)

slices-with_heads :
    (r : String) (heads : Dict (List String))
    → distinct (keys heads) ≡ true
    → slices r (with_heads heads) ≡ sort_strings (slices r heads)
unfolding with_heads slices distinct
slices-with_heads r [] d = ground (arith, sort_nil)
slices-with_heads r ((k, []) ∷ heads) d =
    ground (arith, sort_nil, slices-with_heads r heads, slices-absent r heads, eq_iff k r)
slices-with_heads r ((k, h ∷ group) ∷ heads) d = ground (arith, slices-with_heads r heads)

-- The heads of a root: the IDs of the list that have this root and are no parent of another such ID.
pub heads_of-exact :
    (t : FactTable) (ids : List String) (r h : String)
    → mem h (slices r (heads_of t ids))
      ≡ (mem h ids && root_of t h == r) && not (has (succeeds t r h) ids)
unfolding heads_of distinct slices mem
heads_of-exact t ids r h =
    let members = root_members t ids [] in
    ground (
      arith,
      slices-with_heads r (drop_parents t ids members)
          (rw (keys-drop_parents t ids members) (distinct-root_members t ids [] refl)),
      mem-sort_strings h (slices r (drop_parents t ids members)),
      mem-drop_parents t ids members r h,
      mem-root_members t ids [] r h,
    )

pub heads_of-distinct :
    (t : FactTable) (ids : List String) → distinct (keys (heads_of t ids)) ≡ true
unfolding heads_of distinct
heads_of-distinct t ids =
    let members = root_members t ids [] in
    distinct-with_heads (drop_parents t ids members)
      (rw (keys-drop_parents t ids members) (distinct-root_members t ids [] refl))

-- The entries of a map: its value at the key, and not empty.
abbrev pub Entries : Dict (List String) → List (String × List String) → Type 0
Entries heads = All (λ entry. (slices entry.0 heads ≡ entry.1) × (is_empty entry.1 ≡ false))

entries_filled :
    (heads : Dict (List String)) → All (λ entry. is_empty entry.1 ≡ false) (with_heads heads)
unfolding with_heads
entries_filled [] = tt
entries_filled ((k, []) ∷ heads) = entries_filled heads
entries_filled ((k, h ∷ group) ∷ heads) = (is_empty-sort_strings h group, entries_filled heads)

pub heads_of-Entries :
    (t : FactTable) (ids : List String) → Entries (heads_of t ids) (heads_of t ids)
heads_of-Entries t ids =
    let heads = heads_of t ids in
    All-zip (λ entry. slices entry.0 heads ≡ entry.1) (λ entry. is_empty entry.1 ≡ false) heads
      (All-map (λ entry. lookup entry.0 heads ≡ some entry.1)
        (λ entry. slices entry.0 heads ≡ entry.1) (λ entry e. slices-lookup entry.0 heads e) heads
        (lookup_entries heads (heads_of-distinct t ids)))
      (unfold heads_of in entries_filled (drop_parents t ids (root_members t ids [])))
