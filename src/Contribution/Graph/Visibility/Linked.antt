-- ===== src/Contribution/Graph/Visibility/Linked.antt =====
-- internal/contribution/model.go: what the visibility of a revision depends on.
use hubnot.Prelude.{
  ◌≡◌, ◌⊎◌, Bool, true, false, ◌&&◌, ◌||◌, String, List, [], ◌∷◌, ◌++◌, arith, ◌==◌, eq_iff,
  eq_refl, if◌then◌else◌, Bool-cases, inl, inr, is_empty, has,
}
use hubnot.Prelude.Strings.{mem, mem-append}
use hubnot.Prelude.Maps.{Dict, insert, lookup-insert, slices, push, slices-push}
use hubnot.Contribution.Records.{Reference}
use hubnot.Contribution.Graph.Facts.{FactTable}
use hubnot.Contribution.Graph.Visibility.{Sight, sees, gate_of, references_of}
use hubnot.Contribution.Graph.Visibility.Spread.{sees-insert}
use hubnot.Contribution.Graph.Visibility.Sights.{known, known-insert, Queued}

-- A reference makes its owner depend on a revision or on a root.
abbrev pub points_at : Reference → String → Bool
points_at r k = if r.kind == "revision" then r.id == k else r.kind == "root" && gate_of r.id == k

abbrev pub points : FactTable → String → String → Bool
points t id k = has (λ r. points_at r k) (references_of t id)

module _ (t : FactTable) (heads : Dict (List String)) (shown : String → Bool)
    (admitted : List String)
    (apart : (id r : String) → mem id admitted ≡ true → (gate_of r == id) ≡ false) where
  -- During the third loop.
  pub record Wired (v : Sight) : Type 0 where
    pub queued : Queued v
    pub known_ids :
        (k : String) → mem k admitted ≡ true → (sees k v.visible ≡ shown k) × (known k v ≡ true)
    pub gates : (r : String) → sees (gate_of r) v.visible ≡ true → is_empty (slices r heads) ≡ false
    pub links :
        (k d : String)
        → mem d (slices k v.reverse) ≡ true
        → ((r : String) × (gate_of r ≡ d) × (mem k (slices r heads) ≡ true))
          ⊎ ((mem d admitted ≡ true) × (points t d k ≡ true))
    pub sure : (k d : String) → mem d (slices k v.reverse) ≡ true → known k v ≡ true

  mem-push :
      (r id k d : String) (v : Sight)
      → mem d (slices k (push r id v.reverse)) ≡ mem d (slices k v.reverse) || (r == k && id == d)
  mem-push r id k d v =
      unfold mem in
      ground (
        arith,
        slices-push r k id v.reverse,
        mem-append d (slices k v.reverse) (id ∷ []),
        Bool-cases (mem d (slices k v.reverse)),
        Bool-cases (id == d),
      )

  -- One link more, to a key that is known.
  pub link-Wired :
      (key id : String) (v : Sight)
      → known key v ≡ true
      → mem id admitted ≡ true
      → points t id key ≡ true
      → Wired v
      → Wired (record v { reverse = push key id v.reverse })
  link-Wired key id v known m p w = record {
    queued = record { falls = w.queued.falls; waits = w.queued.waits };
    known_ids = w.known_ids;
    gates = w.gates;
    links = λ k d in_new. elim (Bool-cases (mem d (slices k v.reverse))) [
      | inl before ↦ w.links k d before
      | inr new ↦
          let both : (key == k && id == d) ≡ true =
            ground (arith, mem-push key id k d v, in_new, new) in
          let at_key = (eq_iff key k).0 (ground arith) in
          let at_id = (eq_iff id d).0 (ground arith) in
          inr (rw (← at_id) m, rw (← at_id, ← at_key) p)
    ];
    sure = λ k d in_new. elim (Bool-cases (mem d (slices k v.reverse))) [
      | inl before ↦ w.sure k d before
      | inr new ↦
          let at_key : (key == k) ≡ true = ground (arith, mem-push key id k d v, in_new, new) in
          rw (← (eq_iff key k).0 at_key) known
    ];
  }

  -- A root without an entry is not visible.
  abbrev pub dim : String → Sight → Sight
  dim root v = record v {
    visible = insert (gate_of root) false v.visible;
    queue = v.queue ++ gate_of root ∷ [];
  }

  mem-dim :
      (root k : String) (v : Sight) → mem k (dim root v).queue ≡ mem k v.queue || gate_of root == k
  mem-dim root k v =
      unfold mem in
      ground (arith, mem-append k v.queue (gate_of root ∷ []), Bool-cases (gate_of root == k))

  pub dim-Wired :
      (root : String) (v : Sight) → known (gate_of root) v ≡ false → Wired v → Wired (dim root v)
  dim-Wired root v new w = record {
    queued = record {
      falls = λ k a b. ground (
        arith,
        known-insert (gate_of root) k false v.visible,
        sees-insert (gate_of root) k false v.visible,
        mem-dim root k v,
        w.queued.falls k,
        a,
        b,
      );
      waits = λ k q. ground (
        arith,
        known-insert (gate_of root) k false v.visible,
        sees-insert (gate_of root) k false v.visible,
        mem-dim root k v,
        w.queued.waits k,
        q,
      );
    };
    known_ids = λ k m. ground (
      arith,
      known-insert (gate_of root) k false v.visible,
      sees-insert (gate_of root) k false v.visible,
      w.known_ids k m,
      apart k root m,
    );
    gates = λ r s.
        w.gates r (ground (arith, sees-insert (gate_of root) (gate_of r) false v.visible, s));
    links = w.links;
    sure = λ k d m. ground (arith, known-insert (gate_of root) k false v.visible, w.sure k d m);
  }

  -- What later rounds keep.
  pub record Later (before after : Sight) : Type 0 where
    pub lit : (k : String) → sees k before.visible ≡ true → sees k after.visible ≡ true
    pub linked :
        (k d : String)
        → mem d (slices k before.reverse) ≡ true
        → mem d (slices k after.reverse) ≡ true

  pub dim-Later :
      (root : String) (v : Sight) → known (gate_of root) v ≡ false → Later v (dim root v)
  dim-Later root v new = record {
    lit = λ k s.
        unfold sees in
        ground
          (arith, lookup-insert (gate_of root) k false v.visible, eq_iff (gate_of root) k, s, new);
    linked = λ k d m. m;
  }

  pub link-Later :
      (key id : String) (v : Sight) → Later v (record v { reverse = push key id v.reverse })
  link-Later key id v = record {
    lit = λ k s. s;
    linked = λ k d m. ground (arith, mem-push key id k d v, m);
  }

  pub Later-trans : {a b c : Sight} → Later a b → Later b c → Later a c
  Later-trans x y = record {
    lit = λ k s. y.lit k (x.lit k s);
    linked = λ k d m. y.linked k d (x.linked k d m);
  }

  pub linked_now :
      (key id : String) (v : Sight) → mem id (slices key (push key id v.reverse)) ≡ true
  linked_now key id v = ground (arith, mem-push key id key id v, eq_refl key, eq_refl id)

  pub known-dim : (root : String) (v : Sight) → known (gate_of root) (dim root v) ≡ true
  known-dim root v =
      ground
        (arith, known-insert (gate_of root) (gate_of root) false v.visible, eq_refl (gate_of root))
