-- ===== src/Contribution/Graph/Visibility/Start.antt =====
-- internal/contribution/model.go: what the loops before the fixed point leave.
use hubnot.Prelude.{
  ◌≡◌, Bool, true, false, String, List, arith, ◌==◌, eq_refl, Bool-cases, inl, inr, is_empty, All,
}
use hubnot.Prelude.Strings.{mem}
use hubnot.Prelude.Maps.{Dict, lookup, slices, slices-nil}
use hubnot.Contribution.Graph.Facts.{FactTable}
use hubnot.Contribution.Graph.Visibility.{
  Sight, nothing_seen, sees, gate_of, sight_of_ids, sight_of_gates, sight_of_links, references_of,
}
use hubnot.Contribution.Graph.Visibility.Spread.{Pending}
use hubnot.Contribution.Graph.Visibility.Heads.{Entries}
use hubnot.Contribution.Graph.Visibility.Sights.{known, Listed, Lists, sight_of_ids-Lists}
use hubnot.Contribution.Graph.Visibility.Gated.{
  Gated, Gates, Opened, All-slices, sight_of_gates-Gates,
}
use hubnot.Contribution.Graph.Visibility.Linked.{Wired}
use hubnot.Contribution.Graph.Visibility.Wires.{Wires, sight_of_links-Wires}

sees-known : (k : String) (v : Sight) → sees k v.visible ≡ true → known k v ≡ true
unfolding sees
sees-known k v s = ground (arith, s)

module _ (t : FactTable) (heads : Dict (List String)) (shown : String → Bool)
    (admitted : List String)
    (apart : (id r : String) → mem id admitted ≡ true → (gate_of r == id) ≡ false)
    (entries : Entries heads heads)
    (led : (r h : String) → mem h (slices r heads) ≡ true → mem h admitted ≡ true)
    (targets : (id : String)
      → mem id admitted ≡ true
      → All (λ r. r.kind ≡ "revision" → mem r.id admitted ≡ true) (references_of t id)) where
  abbrev pub listed_sight : Sight
  listed_sight = sight_of_ids shown admitted nothing_seen

  abbrev pub gated_sight : Sight
  gated_sight = sight_of_gates heads listed_sight

  abbrev pub final_sight : Sight
  final_sight = sight_of_links t admitted gated_sight

  nothing-Listed : Listed shown admitted nothing_seen
  nothing-Listed = record {
    queued = record {
      falls = λ k a b. absurd (unfold lookup in ground (arith, a));
      waits = λ k q. absurd (unfold mem in ground (arith, q));
    };
    own = λ k a. absurd (unfold lookup in ground (arith, a));
    links = slices-nil;
  }

  all_listed : Lists shown admitted admitted nothing_seen listed_sight
  all_listed = sight_of_ids-Lists shown admitted admitted nothing_seen (λ k m. m) nothing-Listed

  listed-Gated : Gated heads shown admitted apart listed_sight
  listed-Gated =
      let l = all_listed.listed in
      record {
        queued = l.queued;
        asleep = λ k q. (l.own k (l.queued.waits k q).1).1;
        known_ids = λ k m. ((l.own k (all_listed.all k m)).0, all_listed.all k m);
        gates = λ r s.
            let at = sees-known (gate_of r) listed_sight s in
            absurd
              (ground (arith, apart (gate_of r) r (l.own (gate_of r) at).1, eq_refl (gate_of r)));
        links = λ k d m. absurd (unfold mem in ground (arith, l.links k, m));
      }

  all_gated : Gates heads shown admitted apart heads listed_sight gated_sight
  all_gated =
      sight_of_gates-Gates heads shown admitted apart heads listed_sight entries listed-Gated

  gated-Wired : Wired t heads shown admitted apart gated_sight
  gated-Wired =
      let g = all_gated.gated in
      record {
        queued = g.queued;
        known_ids = g.known_ids;
        gates = g.gates;
        links = λ k d m. inl (g.links k d m);
        sure = λ k d m. let (r, e, h) = g.links k d m in (g.known_ids k (led r k h)).1;
      }

  pub final-Wires : Wires t heads shown admitted apart admitted gated_sight final_sight
  final-Wires =
      sight_of_links-Wires t heads shown admitted apart admitted gated_sight (λ id m. m) targets
        gated-Wired

  pub final-Opened :
      (r : String)
      → is_empty (slices r heads) ≡ false
      → Opened heads shown admitted apart final_sight (r, slices r heads)
  final-Opened r full =
      let (lit, linked) =
        All-slices (Opened heads shown admitted apart gated_sight) heads r all_gated.opened full in
      let w = final-Wires in
      (w.later.lit (gate_of r) lit, λ k m. w.later.linked k (gate_of r) (linked k m))

  -- The queue is in order before the fixed point is sought.
  pub final-Pending : Pending final_sight.reverse final_sight.visible final_sight.queue
  final-Pending =
      let w = final-Wires.wired in
      record {
        dealt = λ k dark. elim (Bool-cases (known k final_sight)) [
          | inl at ↦ inl (w.queued.falls k at dark)
          | inr new ↦ inr (λ d m. absurd (ground (arith, new, w.sure k d m)))
        ];
        waiting = λ k q. (w.queued.waits k q).0;
      }
