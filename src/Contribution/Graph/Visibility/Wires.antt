-- ===== src/Contribution/Graph/Visibility/Wires.antt =====
-- internal/contribution/model.go: the loop over the references of the admitted revisions.
use hubnot.Prelude.{
  ◌≡◌, refl, sym, Bool, true, false, String, List, [], ◌∷◌, arith, ◌==◌, eq_iff, eq_refl,
  Bool-cases, inl, inr, has, All,
}
use mathlib.Core.Path.{subst}
use hubnot.Prelude.Strings.{mem}
use hubnot.Prelude.Maps.{Dict, slices, push}
use hubnot.Contribution.Records.{Reference}
use hubnot.Contribution.Graph.Facts.{FactTable}
use hubnot.Contribution.Graph.Visibility.{
  Sight, gate_of, sight_of_reference, sight_of_references, sight_of_links, references_of,
}
use hubnot.Contribution.Graph.Visibility.Sights.{known}
use hubnot.Contribution.Graph.Visibility.Linked.{
  points_at, points, Wired, Later, Later-trans, link-Wired, link-Later, linked_now, dim, dim-Wired,
  dim-Later, known-dim,
}

module _ (t : FactTable) (heads : Dict (List String)) (shown : String → Bool)
    (admitted : List String)
    (apart : (id r : String) → mem id admitted ≡ true → (gate_of r == id) ≡ false) where
  -- What a loop over references makes of what it started with; `covers` are the keys it links to.
  record Rounds (id : String) (covers : String → Bool) (before after : Sight) : Type 0 where
    wired : Wired t heads shown admitted apart after
    later : Later t heads shown admitted apart before after
    linked : (k : String) → covers k ≡ true → mem id (slices k after.reverse) ≡ true

  module _ (id : String) (m : mem id admitted ≡ true) where
    -- One link, to a key that is known.
    link-Rounds :
        (key : String) (covers : String → Bool) (v : Sight)
        → known key v ≡ true
        → points t id key ≡ true
        → ((k : String) → covers k ≡ true → (key == k) ≡ true)
        → Wired t heads shown admitted apart v
        → Rounds id covers v (record v { reverse = push key id v.reverse })
    link-Rounds key covers v at p only w = record {
      wired = link-Wired t heads shown admitted apart key id v at m p w;
      later = link-Later t heads shown admitted apart key id v;
      linked = λ k c.
          subst (λ j. mem id (slices j (push key id v.reverse)) ≡ true)
            ((eq_iff key k).0 (only k c)) (linked_now t heads shown admitted apart key id v);
    }

    after-Rounds :
        (covers : String → Bool) (a b c : Sight)
        → Later t heads shown admitted apart a b
        → Rounds id covers b c
        → Rounds id covers a c
    after-Rounds covers a b c l r = record {
      wired = r.wired;
      later = Later-trans t heads shown admitted apart l r.later;
      linked = r.linked;
    }

    -- One reference, whose target is admitted where it is a revision.
    sight_of_reference-Rounds :
        (r : Reference) (v : Sight)
        → ((k : String) → points_at r k ≡ true → points t id k ≡ true)
        → (r.kind ≡ "revision" → mem r.id admitted ≡ true)
        → Wired t heads shown admitted apart v
        → Rounds id (points_at r) v (sight_of_reference id r v)
    unfolding sight_of_reference
    sight_of_reference-Rounds r v listed target w = elim (Bool-cases (r.kind == "revision")) [
      | inl revision ↦
          rw (revision, sight_of_reference)
            (link-Rounds r.id (points_at r) v
              (w.known_ids r.id (target ((eq_iff r.kind "revision").0 revision))).1
              (listed r.id (ground (arith, revision, eq_refl r.id)))
              (λ k p. ground (arith, revision, p)) w)
      | inr other ↦ elim (Bool-cases (r.kind == "root")) [
        | inl root ↦
            let gate = gate_of r.id in
            let here = listed gate (ground (arith, other, root, eq_refl gate)) in
            elim (Bool-cases (known gate v)) [
              | inl old ↦
                  rw (other, root, old, sight_of_reference)
                    (link-Rounds gate (points_at r) v old here
                      (λ k p. ground (arith, other, root, p)) w)
              | inr new ↦
                  rw (other, root, new, sight_of_reference)
                    (let dimmed = dim t heads shown admitted apart r.id v in
                      after-Rounds (points_at r) v dimmed
                        (record dimmed { reverse = push gate id v.reverse })
                        (dim-Later t heads shown admitted apart r.id v new)
                        (link-Rounds gate (points_at r) dimmed
                          (known-dim t heads shown admitted apart r.id v) here
                          (λ k p. ground (arith, other, root, p))
                          (dim-Wired t heads shown admitted apart r.id v new w)))
            ]
        | inr neither ↦
            rw (other, neither, sight_of_reference)
              (record {
                wired = w;
                later = record { lit = λ k s. s; linked = λ k d q. q };
                linked = λ k p. absurd (ground (arith, p, other, neither));
              })
      ]
    ]

    sight_of_references-Rounds :
        (refs : List Reference) (v : Sight)
        → ((k : String) → has (λ r. points_at r k) refs ≡ true → points t id k ≡ true)
        → All (λ r. r.kind ≡ "revision" → mem r.id admitted ≡ true) refs
        → Wired t heads shown admitted apart v
        → Rounds id (λ k. has (λ r. points_at r k) refs) v (sight_of_references id refs v)
    unfolding sight_of_references has
    sight_of_references-Rounds [] v listed targets w = record {
      wired = w;
      later = record { lit = λ k s. s; linked = λ k d q. q };
      linked = λ k p. absurd cc;
    }
    sight_of_references-Rounds (r ∷ refs) v listed targets w =
        let one = sight_of_reference-Rounds r v (λ k p. listed k (rw p refl)) targets.0 w in
        let next = sight_of_reference id r v in
        let rest =
          sight_of_references-Rounds refs next
            (λ k p. listed k (ground (arith, p, Bool-cases (points_at r k)))) targets.1 one.wired in
        record {
          wired = rest.wired;
          later = Later-trans t heads shown admitted apart one.later rest.later;
          linked = λ k p. elim (Bool-cases (points_at r k)) [
            | inl now ↦ rest.later.linked k id (one.linked k now)
            | inr other ↦ rest.linked k (ground (arith, p, other))
          ];
        }

  -- What the whole loop makes of what it started with.
  pub record Wires (ids : List String) (before after : Sight) : Type 0 where
    pub wired : Wired t heads shown admitted apart after
    pub later : Later t heads shown admitted apart before after
    pub linked :
        (id k : String)
        → mem id ids ≡ true
        → points t id k ≡ true
        → mem id (slices k after.reverse) ≡ true

  pub sight_of_links-Wires :
      (ids : List String) (v : Sight)
      → ((id : String) → mem id ids ≡ true → mem id admitted ≡ true)
      → ((id : String)
          → mem id admitted ≡ true
          → All (λ r. r.kind ≡ "revision" → mem r.id admitted ≡ true) (references_of t id))
      → Wired t heads shown admitted apart v
      → Wires ids v (sight_of_links t ids v)
  unfolding sight_of_links mem
  sight_of_links-Wires [] v within targets w = record {
    wired = w;
    later = record { lit = λ k s. s; linked = λ k d q. q };
    linked = λ id k m p. absurd cc;
  }
  sight_of_links-Wires (id ∷ ids) v within targets w =
      let m = within id (ground (arith, eq_refl id)) in
      let next = sight_of_references id (references_of t id) v in
      let one =
        sight_of_references-Rounds id m (references_of t id) v (λ k p. p) (targets id m) w in
      let rest =
        sight_of_links-Wires ids next (λ i q. within i (ground (arith, q))) targets one.wired in
      record {
        wired = rest.wired;
        later = Later-trans t heads shown admitted apart one.later rest.later;
        linked = λ i k q p. elim (Bool-cases (id == i)) [
          | inl same ↦
              let at = (eq_iff id i).0 same in
              rest.later.linked k i (
                subst (λ j. mem j (slices k next.reverse) ≡ true) at
                  (one.linked k (subst (λ j. points t j k ≡ true) (sym at) p)))
          | inr other ↦ rest.linked i k (ground (arith, q)) p
        ];
      }
