-- ===== src/Lineage/Acyclic/Sound.antt =====
-- lineage.go: what the search of `validateAcyclic` leaves marked.
use mathlib.Core.Path.{subst}
use hubnot.Prelude.{
  ℕ, zero, suc, ◌≡◌, true, inl, inr, String, List, [], ◌∷◌, none, some, ok, arith, Bool-cases,
  Option-cases, >>=-eq-ok, ◌==◌, eq_iff, eq_refl, ◌>>=◌,
}
use hubnot.Prelude.Strings.{mem}
use hubnot.Prelude.Maps.{Dict, lookup, insert, lookup-insert}
use hubnot.Lineage.Index.{Mark, visiting, visited, visit, visit_all, chain_fuel}
use hubnot.Lineage.Chain.{Depth, top, below}

-- What `visit` does on an ID without a mark.
pub visit_fresh :
    (fuel : ℕ) (predecessors : Dict String) (id p : String) (state : Dict Mark)
    → lookup id state ≡ none
    → lookup id predecessors ≡ some p
    → visit (suc fuel) predecessors id state ≡ (
        visit fuel predecessors p (insert id visiting state) >>= λ after.
        ok (insert id visited after))
unfolding visit
visit_fresh fuel predecessors id p state e f = rw (e, f, visit)

module _ (predecessors : Dict String) where
  -- Every ID marked as visited has a chain that ends.
  abbrev pub Sound : Dict Mark → Type 0
  Sound state = (v : String) → lookup v state ≡ some visited → (n : ℕ) × Depth predecessors v n

  abbrev Grows : Dict Mark → Dict Mark → Type 0
  Grows state after = (v : String) → lookup v state ≡ some visited → lookup v after ≡ some visited

  Sound-visiting :
      (id : String) (state : Dict Mark) → Sound state → Sound (insert id visiting state)
  Sound-visiting id state s v m = s v (ground (arith, lookup-insert id v visiting state))

  Sound-visited :
      (id : String) (state : Dict Mark) (n : ℕ)
      → Depth predecessors id n
      → Sound state
      → Sound (insert id visited state)
  Sound-visited id state n d s v m = elim (Bool-cases (id == v)) [
    | inl same ↦ (n, subst (λ x. Depth predecessors x n) ((eq_iff id v).0 same) d)
    | inr other ↦ s v (ground (arith, lookup-insert id v visited state))
  ]

  record Visited (id : String) (state after : Dict Mark) : Type 0 where
    sound : Sound after
    marked : lookup id after ≡ some visited
    grows : Grows state after

  Grows-visiting :
      (id : String) (state : Dict Mark)
      → lookup id state ≡ none
      → Grows state (insert id visiting state)
  Grows-visiting id state e v m = ground (arith, lookup-insert id v visiting state, eq_iff id v)

  close :
      (id : String) (state after : Dict Mark) (n : ℕ)
      → Depth predecessors id n
      → Sound after
      → Grows state after
      → Visited id state (insert id visited after)
  close id state after n d s g = record {
    sound = Sound-visited id after n d s;
    marked = ground (arith, lookup-insert id id visited after, eq_refl id);
    grows = λ v m. ground (arith, lookup-insert id v visited after, g v m);
  }

  visit-Sound :
      (fuel : ℕ) (id : String) (state : Dict Mark) {after : Dict Mark}
      → visit fuel predecessors id state ≡ ok after
      → Sound state
      → Visited id state after
  unfolding visit
  visit-Sound zero id state h s = absurd (ground arith)
  visit-Sound (suc fuel) id state {after} h s = elim (Option-cases (lookup id state)) [
    | inl e ↦
        let marked = Sound-visiting id state s in
        let grown = Grows-visiting id state e in
        elim (Option-cases (lookup id predecessors)) [
          | inl f ↦
              let same : insert id visited (insert id visiting state) ≡ after = ground arith in
              subst (Visited id state) same
                (close id state (insert id visiting state) zero (top f) marked grown)
          | inr (p, f) ↦
              let (inner, run, last) =
                >>=-eq-ok (visit fuel predecessors p (insert id visiting state))
                  (λ a. ok (insert id visited a))
                  (rw (visit_fresh fuel predecessors id p state e f) at h) in
              let v = visit-Sound fuel p (insert id visiting state) run marked in
              let (n, d) = v.sound p v.marked in
              let same : insert id visited inner ≡ after = ground arith in
              subst (Visited id state) same
                (close id state inner (suc n) (below p f d) v.sound (λ a m. v.grows a (grown a m)))
        ]
    | inr (visiting, e) ↦ absurd (ground arith)
    | inr (visited, e) ↦
        let same : state ≡ after = ground arith in
        subst (Visited id state) same (record { sound = s; marked = e; grows = λ v m. m })
  ]

  pub visit_all-Sound :
      (ids : List String) (state : Dict Mark) {after : Dict Mark}
      → visit_all predecessors ids state ≡ ok after
      → Sound state
      → Sound after
        × Grows state after
        × ((v : String) → mem v ids ≡ true → lookup v after ≡ some visited)
  unfolding visit_all mem
  visit_all-Sound [] state {after} h s =
      let same : state ≡ after = ground arith in
      (subst Sound same s, λ v m. rw (← same) m, λ v m. absurd cc)
  visit_all-Sound (id ∷ ids) state h s =
      let (mid, run, more) =
        >>=-eq-ok (visit (chain_fuel predecessors) predecessors id state)
          (λ a. visit_all predecessors ids a) h in
      let v = visit-Sound (chain_fuel predecessors) id state run s in
      let (sound, grows, all) = visit_all-Sound ids mid more v.sound in
      (
        sound,
        λ a m. grows a (v.grows a m),
        λ a m. elim (Bool-cases (id == a)) [
          | inl same ↦ rw (← (eq_iff id a).0 same) (grows id v.marked)
          | inr other ↦ all a (ground arith)
        ],
      )
