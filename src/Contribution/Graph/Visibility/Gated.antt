-- ===== src/Contribution/Graph/Visibility/Gated.antt =====
-- internal/contribution/model.go: the roots among what is visible.
use hubnot.Prelude.{
  ◌≡◌, Bool, true, false, not, ◌&&◌, ◌||◌, String, List, [], ◌∷◌, arith, ◌==◌, eq_iff, eq_refl,
  Bool-cases, inl, inr, is_empty, All,
}
use mathlib.Core.Path.{subst}
use hubnot.Prelude.Strings.{mem, mem-append}
use hubnot.Prelude.Maps.{Dict, insert, slices, push, slices-push}
use hubnot.Contribution.Graph.Visibility.{Sight, sees, gate_of, push_reverse, sight_of_gates}
use hubnot.Contribution.Graph.Visibility.Heads.{Entries}
use hubnot.Contribution.Graph.Visibility.Gates.{gate_injective}
use hubnot.Contribution.Graph.Visibility.Spread.{sees-insert}
use hubnot.Contribution.Graph.Visibility.Sights.{known, known-insert, Queued}

mem-push_reverse :
    (dep : String) (ids : List String) (reverse : Dict (List String)) (k d : String)
    → mem d (slices k (push_reverse dep ids reverse))
      ≡ mem d (slices k reverse) || (mem k ids && dep == d)
unfolding push_reverse mem
mem-push_reverse dep [] reverse k d = ground (arith, Bool-cases (mem d (slices k reverse)))
mem-push_reverse dep (id ∷ ids) reverse k d = ground (
  arith,
  mem-push_reverse dep ids (push id dep reverse) k d,
  slices-push id k dep reverse,
  mem-append d (slices k reverse) (dep ∷ []),
  Bool-cases (mem d (slices k reverse)),
  Bool-cases (dep == d),
)

pub All-slices {κ} :
    (P : String × List String → Type κ) (heads : Dict (List String)) (r : String)
    → All P heads
    → is_empty (slices r heads) ≡ false
    → P (r, slices r heads)
unfolding slices
All-slices P [] r h e = absurd (ground (arith, e))
All-slices P ((k, group) ∷ heads) r h e = elim (Bool-cases (k == r)) [
  | inl same ↦ rw same (subst (λ j. P (j, group)) ((eq_iff k r).0 same) h.0)
  | inr other ↦ rw other (All-slices P heads r h.1 (ground (arith, e, other)))
]

module _ (heads : Dict (List String)) (shown : String → Bool) (admitted : List String)
    (apart : (id r : String) → mem id admitted ≡ true → (gate_of r == id) ≡ false) where
  -- During the second loop.
  pub record Gated (v : Sight) : Type 0 where
    pub queued : Queued v
    pub asleep : (k : String) → mem k v.queue ≡ true → mem k admitted ≡ true
    pub known_ids :
        (k : String) → mem k admitted ≡ true → (sees k v.visible ≡ shown k) × (known k v ≡ true)
    pub gates : (r : String) → sees (gate_of r) v.visible ≡ true → is_empty (slices r heads) ≡ false
    pub links :
        (k d : String)
        → mem d (slices k v.reverse) ≡ true
        → (r : String) × (gate_of r ≡ d) × (mem k (slices r heads) ≡ true)

  abbrev gating : String → List String → Sight → Sight
  gating root group v = record v {
    visible = insert (gate_of root) (not (is_empty group)) v.visible;
    reverse = push_reverse (gate_of root) group v.reverse;
  }

  step-Gated :
      (root : String) (group : List String) (v : Sight)
      → slices root heads ≡ group
      → is_empty group ≡ false
      → Gated v
      → Gated (gating root group v)
  step-Gated root group v e full g =
      let lit = not (is_empty group) in
      record {
        queued = record {
          falls = λ k a b. ground (
            arith,
            known-insert (gate_of root) k lit v.visible,
            sees-insert (gate_of root) k lit v.visible,
            g.queued.falls k,
            full,
            a,
            b,
          );
          waits = λ k q. ground (
            arith,
            known-insert (gate_of root) k lit v.visible,
            sees-insert (gate_of root) k lit v.visible,
            g.queued.waits k q,
            apart k root (g.asleep k q),
          );
        };
        asleep = g.asleep;
        known_ids = λ k m. ground (
          arith,
          known-insert (gate_of root) k lit v.visible,
          sees-insert (gate_of root) k lit v.visible,
          g.known_ids k m,
          apart k root m,
        );
        gates = λ r s. elim (Bool-cases (gate_of root == gate_of r)) [
          | inl same ↦
              let own = gate_injective root r ((eq_iff (gate_of root) (gate_of r)).0 same) in
              rw (← own) (rw e full)
          | inr other ↦
              g.gates r
                (ground (arith, sees-insert (gate_of root) (gate_of r) lit v.visible, s, other))
        ];
        links = λ k d m. elim (Bool-cases (mem d (slices k v.reverse))) [
          | inl before ↦ g.links k d before
          | inr new ↦
              let both : (mem k group && gate_of root == d) ≡ true =
                ground (arith, mem-push_reverse (gate_of root) group v.reverse k d, m, new) in
              (root, (eq_iff (gate_of root) d).0 (ground arith), rw e (ground arith))
        ];
      }

  -- What the loop makes of one root.
  abbrev pub Opened : Sight → String × List String → Type 0
  Opened v entry =
      (sees (gate_of entry.0) v.visible ≡ true)
      × ((k : String) → mem k entry.1 ≡ true → mem (gate_of entry.0) (slices k v.reverse) ≡ true)

  pub record Gates (rest : List (String × List String)) (before after : Sight) : Type 0 where
    pub gated : Gated after
    pub opened : All (Opened after) rest
    pub lit : (k : String) → sees k before.visible ≡ true → sees k after.visible ≡ true
    pub linked :
        (k d : String)
        → mem d (slices k before.reverse) ≡ true
        → mem d (slices k after.reverse) ≡ true

  pub sight_of_gates-Gates :
      (rest : List (String × List String)) (v : Sight)
      → Entries heads rest
      → Gated v
      → Gates rest v (sight_of_gates rest v)
  unfolding sight_of_gates
  sight_of_gates-Gates [] v e g = record {
    gated = g;
    opened = tt;
    lit = λ k s. s;
    linked = λ k d m. m;
  }
  sight_of_gates-Gates ((root, group) ∷ rest) v e g =
      let next = gating root group v in
      let made = not (is_empty group) in
      let r = sight_of_gates-Gates rest next e.1 (step-Gated root group v e.0.0 e.0.1 g) in
      record {
        gated = r.gated;
        opened = (
          (
            r.lit (gate_of root) (
                ground (
                  arith,
                  sees-insert (gate_of root) (gate_of root) made v.visible,
                  eq_refl (gate_of root),
                  e.0.1,
                )),
            λ k m. r.linked k (gate_of root) (
                ground (
                  arith,
                  mem-push_reverse (gate_of root) group v.reverse k (gate_of root),
                  eq_refl (gate_of root),
                  m,
                )),
          ),
          r.opened,
        );
        lit =
            λ k s. r.lit k (ground (arith, sees-insert (gate_of root) k made v.visible, s, e.0.1));
        linked = λ k d m.
            r.linked k d (ground (arith, mem-push_reverse (gate_of root) group v.reverse k d, m));
      }
