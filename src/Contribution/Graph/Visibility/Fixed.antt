-- ===== src/Contribution/Graph/Visibility/Fixed.antt =====
-- internal/contribution/model.go: the revisions that stay visible.
use hubnot.Prelude.{
  ◌≡◌, ◌⊎◌, refl, ◌∙◌, sym, Bool, true, false, String, List, [], ◌∷◌, ok, arith, ◌==◌, eq_iff,
  eq_refl, Bool-cases, inl, inr, is_empty, has, select, All, All-map, All-zip,
}
use mathlib.Core.Path.{subst}
use hubnot.Prelude.Strings.{mem, mem-select}
use hubnot.Prelude.Maps.{Dict, slices}
use hubnot.Contribution.Records.{Reference}
use hubnot.Contribution.Graph.Facts.{FactTable}
use hubnot.Contribution.Graph.Visibility.{
  Sight, sees, gate_of, references_of, visible_ids, propagate, sight_fuel,
}
use hubnot.Contribution.Graph.Visibility.Gates.{gate_injective}
use hubnot.Contribution.Graph.Visibility.Spread.{Spread, propagate-Spread, trues-fuel}
use hubnot.Contribution.Graph.Visibility.Heads.{Entries}
use hubnot.Contribution.Graph.Visibility.Linked.{points_at, points}
use hubnot.Contribution.Graph.Visibility.Wires.{Wires}
use hubnot.Contribution.Graph.Visibility.Start.{
  gated_sight, final_sight, final-Wires, final-Opened, final-Pending,
}

-- What a reference needs: its revision, or every head of its root, of which there is one.
abbrev pub Satisfied : Dict (List String) → (String → Type 0) → Reference → Type 0
Satisfied heads S r =
    (r.kind ≡ "revision" → S r.id)
    × (r.kind ≡ "root"
        → (is_empty (slices r.id heads) ≡ false)
          × ((h : String) → mem h (slices r.id heads) ≡ true → S h))

-- A set of revisions that are shown and whose references need nothing outside of it.
abbrev pub Supported : FactTable → (String → Bool) → Dict (List String) → (String → Type 0) → Type 0
Supported t shown heads S =
    (id : String) → S id → (shown id ≡ true) × All (Satisfied heads S) (references_of t id)

refs_covered :
    (refs : List Reference)
    → All (λ r. (k : String) → points_at r k ≡ true → has (λ x. points_at x k) refs ≡ true) refs
unfolding has
refs_covered [] = tt
refs_covered (r ∷ refs) = (
  λ k p. rw p refl,
  All-map (λ x. (k : String) → points_at x k ≡ true → has (λ y. points_at y k) refs ≡ true)
      (λ x. (k : String) → points_at x k ≡ true → has (λ y. points_at y k) (r ∷ refs) ≡ true)
      (λ x h k p. ground (arith, h k p, Bool-cases (points_at r k))) refs (refs_covered refs),
)

module _ (t : FactTable) (heads : Dict (List String)) (shown : String → Bool)
    (admitted : List String)
    (apart : (id r : String) → mem id admitted ≡ true → (gate_of r == id) ≡ false)
    (entries : Entries heads heads)
    (led : (r h : String) → mem h (slices r heads) ≡ true → mem h admitted ≡ true)
    (targets : (id : String)
      → mem id admitted ≡ true
      → All (λ r. r.kind ≡ "revision" → mem r.id admitted ≡ true) (references_of t id)) where
  abbrev v : Sight
  v = final_sight t heads shown admitted apart entries led targets

  wires :
      Wires t heads shown admitted apart admitted
        (gated_sight t heads shown admitted apart entries led targets)
        v
  wires = final-Wires t heads shown admitted apart entries led targets

  module _ (after : Dict Bool) (s : Spread v.reverse v.visible after) where
    abbrev Stays : String → Type 0
    Stays id = mem id (select (λ k. sees k after) admitted) ≡ true

    stays : (id : String) → mem id admitted ≡ true → sees id after ≡ true → Stays id
    stays id m lit = ground (arith, mem-select (λ k. sees k after) id admitted, m, lit)

    Stays-parts : (id : String) → Stays id → (mem id admitted ≡ true) × (sees id after ≡ true)
    Stays-parts id st = ground (arith, mem-select (λ k. sees k after) id admitted, st)

    -- A key that something visible depends on is visible.
    needed :
        (k d : String)
        → mem d (slices k v.reverse) ≡ true
        → sees d after ≡ true
        → sees k after ≡ true
    needed k d m lit = elim (Bool-cases (sees k after)) [
      | inl shown_now ↦ shown_now
      | inr dark ↦ absurd (ground (arith, s.closed k dark d m, lit))
    ]

    before : (k : String) → sees k after ≡ true → sees k v.visible ≡ true
    before k lit = elim (Bool-cases (sees k v.visible)) [
      | inl was ↦ was
      | inr dark ↦ absurd (ground (arith, s.shrinks k dark, lit))
    ]

    root_shown :
        (r : String)
        → sees (gate_of r) after ≡ true
        → (is_empty (slices r heads) ≡ false)
          × ((h : String) → mem h (slices r heads) ≡ true → Stays h)
    root_shown r lit =
        let full = wires.wired.gates r (before (gate_of r) lit) in
        let (lit_root, linked) =
          final-Opened t heads shown admitted apart entries led targets r full in
        (full, λ h m. stays h (led r h m) (needed h (gate_of r) (linked h m) lit))

    pub Stays-Supported : Supported t shown heads Stays
    Stays-Supported id st =
        let (m, lit) = Stays-parts id st in
        (
          ground (arith, wires.wired.known_ids id m, before id lit),
          All-map
              (λ r.
                (r.kind ≡ "revision" → mem r.id admitted ≡ true)
                × ((k : String) → points_at r k ≡ true → points t id k ≡ true))
              (Satisfied heads Stays)
              (λ r h. (
                λ revision. stays r.id (h.0 revision) (
                    needed r.id id
                      (wires.linked id r.id m (
                        h.1 r.id
                          (ground (arith, eq_iff r.kind "revision", revision, eq_refl r.id))))
                      lit),
                λ root. root_shown r.id (
                    needed (gate_of r.id) id
                      (wires.linked id (gate_of r.id) m
                        (h.1 (gate_of r.id) (rw root (eq_refl (gate_of r.id)))))
                      lit),
              ))
              (references_of t id)
              (All-zip (λ r. r.kind ≡ "revision" → mem r.id admitted ≡ true)
                (λ r. (k : String) → points_at r k ≡ true → points t id k ≡ true)
                (references_of t id) (targets id m) (refs_covered (references_of t id))),
        )

    module _ (S : String → Type 0) (within : (id : String) → S id → mem id admitted ≡ true)
        (supported : Supported t shown heads S) where
      -- The keys of a supported set: its revisions, and the roots of which it has every head.
      abbrev Held : String → Type 0
      Held k =
          S k
          ⊎ ((r : String) × (gate_of r ≡ k)
              × (is_empty (slices r heads) ≡ false)
              × ((h : String) → mem h (slices r heads) ≡ true → S h))

      Held-target :
          (refs : List Reference) (k : String)
          → All (Satisfied heads S) refs
          → has (λ r. points_at r k) refs ≡ true
          → Held k
      unfolding has
      Held-target [] k h p = absurd cc
      Held-target (r ∷ refs) k h p = elim (Bool-cases (points_at r k)) [
        | inr other ↦ Held-target refs k h.1 (ground (arith, p, other))
        | inl here ↦ elim (Bool-cases (r.kind == "revision")) [
          | inl revision ↦ inl (
              subst S ((eq_iff r.id k).0 (ground (arith, here, revision)))
                (h.0.0 ((eq_iff r.kind "revision").0 revision)))
          | inr root ↦
              let kind = (eq_iff r.kind "root").0 (ground (arith, here, root)) in
              let (full, all) = h.0.1 kind in
              inr (r.id, (eq_iff (gate_of r.id) k).0 (ground (arith, here, root)), full, all)
        ]
      ]

      no_gate : (r id : String) → gate_of r ≡ id → S id → ⊥
      no_gate r id e x = ground (arith, apart id r (within id x), eq_iff (gate_of r) id, e)

      Held-back : (k d : String) → mem d (slices k v.reverse) ≡ true → Held d → Held k
      Held-back k d m x = elim (wires.wired.links k d m) [
        | inl (r, e, h) ↦ elim x [
          | inl y ↦ absurd (no_gate r d e y)
          | inr (r', e', full, all) ↦
              let same = gate_injective r' r (e' ∙ sym e) in inl (all k (rw same h))
        ]
        | inr (at, p) ↦ elim x [
          | inl y ↦ Held-target (references_of t d) k (supported d y).1 p
          | inr (r', e', full, all) ↦
              absurd (ground (arith, apart d r' at, eq_iff (gate_of r') d, e'))
        ]
      ]

      Held-shown : (k : String) → Held k → sees k v.visible ≡ true
      Held-shown k (inl y) = ground (arith, wires.wired.known_ids k (within k y), (supported k y).0)
      Held-shown k (inr (r, e, full, all)) =
          subst (λ j. sees j v.visible ≡ true) e
            (final-Opened t heads shown admitted apart entries led targets r full).0

      pub largest-Stays : (id : String) → S id → Stays id
      largest-Stays id x = stays id (within id x) (s.largest Held Held-back Held-shown id (inl x))

  visible_ids_run :
      (after : Dict Bool)
      → propagate (sight_fuel v) v.reverse v.queue v.visible ≡ ok after
      → visible_ids t shown heads admitted ≡ ok (select (λ id. sees id after) admitted)
  unfolding visible_ids
  visible_ids_run after run = rw (run, visible_ids) refl

  -- The fixed point is found, and it is the largest supported set of admitted revisions.
  pub visible_ids-largest :
      (out : List String) × (visible_ids t shown heads admitted ≡ ok out)
      × ((id : String) → mem id out ≡ true → mem id admitted ≡ true)
      × Supported t shown heads (λ id. mem id out ≡ true)
      × ((S : String → Type 0)
          → ((id : String) → S id → mem id admitted ≡ true)
          → Supported t shown heads S
          → (id : String) → S id
          → mem id out ≡ true)
  visible_ids-largest =
      let (after, run, s) =
        propagate-Spread v.reverse (sight_fuel v) v.queue v.visible
          (trues-fuel v.reverse v.queue v.visible)
          (final-Pending t heads shown admitted apart entries led targets) in
      (
        select (λ id. sees id after) admitted,
        visible_ids_run after run,
        λ id m. (Stays-parts after s id m).0,
        Stays-Supported after s,
        λ S within supported. largest-Stays after s S within supported,
      )
