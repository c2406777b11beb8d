-- ===== src/Lineage/Acyclic/Total.antt =====
-- lineage.go: the fuel of the search of `validateAcyclic`, and when it passes.
use hubnot.Prelude.{
  ℕ, zero, suc, ◌+◌, ◌<◌, ◌≡◌, ◌≢◌, refl, ◌∙◌, true, false, inl, inr, String, List, [], ◌∷◌, none,
  some, Result, ok, err, out_of_fuel, arith, Bool-cases, Option-cases, Result-cases, length, ◌==◌,
  eq_iff, eq_refl, ◌>>=◌,
}
use mathlib.Core.Path.{subst}
use hubnot.Prelude.Strings.{mem, distinct, Within, length-le-of_distinct}
use hubnot.Prelude.Maps.{Dict, lookup, insert, keys, present, length-keys, lookup-insert}
use hubnot.Lineage.Index.{Mark, visiting, visited, visit, visit_all, chain_fuel}
use hubnot.Lineage.Chain.{Depth, top, below, Depth-unique}
use hubnot.Lineage.Root.{Within-cons}
use hubnot.Lineage.Acyclic.Sound.{visit_fresh}

module _ (predecessors : Dict String) where
  -- Every ID on the path of calls has a mark.
  abbrev Marked : List String → Dict Mark → Type 0
  Marked path state = (v : String) → mem v path ≡ true → present (lookup v state) ≡ true

  Marked-cons :
      (id : String) (path : List String) (state : Dict Mark)
      → Marked path state
      → Marked (id ∷ path) (insert id visiting state)
  unfolding mem
  Marked-cons id path state k v m = ground (arith, lookup-insert id v visiting state, k v)

  off_path :
      (id : String) (path : List String) (state : Dict Mark)
      → Marked path state
      → lookup id state ≡ none
      → mem id path ≡ false
  off_path id path state k e = ground (arith, k id)

  bind_returns :
      (r : Result (Dict Mark)) (f : Dict Mark → Dict Mark)
      → r ≢ err out_of_fuel
      → (r >>= λ a. ok (f a)) ≢ err out_of_fuel
  bind_returns (ok a) f n e = ground arith
  bind_returns (err x) f n e = n (ground arith)

  -- The path of calls is made of distinct keys, so the fuel is enough on every map.
  visit_returns :
      (fuel : ℕ) (id : String) (state : Dict Mark) (path : List String)
      → distinct path ≡ true
      → Within path (keys predecessors)
      → Marked path state
      → length predecessors < fuel + length path
      → visit fuel predecessors id state ≢ err out_of_fuel
  unfolding visit
  visit_returns zero id state path d w k h =
      absurd (
        omega (arith, length-le-of_distinct path (keys predecessors) d w, length-keys predecessors))
  visit_returns (suc fuel) id state path d w k h = elim (Option-cases (lookup id state)) [
    | inl e ↦ elim (Option-cases (lookup id predecessors)) [
      | inl f ↦ λ x. ground arith
      | inr (p, f) ↦
          let off = off_path id path state k e in
          rw (visit_fresh fuel predecessors id p state e f) (
            bind_returns (visit fuel predecessors p (insert id visiting state))
              (λ a. insert id visited a)
              (visit_returns fuel p (insert id visiting state) (id ∷ path)
                (unfold distinct in ground arith) (Within-cons predecessors path id p f w)
                (Marked-cons id path state k) (omega arith)))
    ]
    | inr (visiting, e) ↦ λ x. ground arith
    | inr (visited, e) ↦ λ x. ground arith
  ]

  -- Every ID under visit is deeper than depth `n`.
  abbrev Above : ℕ → Dict Mark → Type 0
  Above n state =
      (v : String) → lookup v state ≡ some visiting → (m : ℕ) × Depth predecessors v m × (n < m)

  abbrev Clears : Dict Mark → Dict Mark → Type 0
  Clears state after =
      (v : String) → lookup v after ≡ some visiting → lookup v state ≡ some visiting

  Above-visiting :
      (id p : String) (state : Dict Mark) (n : ℕ)
      → lookup id predecessors ≡ some p
      → Depth predecessors p n
      → Above (suc n) state
      → Above n (insert id visiting state)
  Above-visiting id p state n e d u v m = elim (Bool-cases (id == v)) [
    | inl same ↦ (
      suc n,
      subst (λ x. Depth predecessors x (suc n)) ((eq_iff id v).0 same) (below p e d),
      omega arith,
    )
    | inr other ↦
        let (k, dv, lt) = u v (ground (arith, lookup-insert id v visiting state)) in
        (k, dv, omega arith)
  ]

  Clears-close :
      (id : String) (state after : Dict Mark)
      → Clears (insert id visiting state) after
      → Clears state (insert id visited after)
  Clears-close id state after c v m =
      ground (arith, lookup-insert id v visited after, lookup-insert id v visiting state, c v)

  not_visiting :
      (id : String) (state : Dict Mark) (n : ℕ)
      → Depth predecessors id n
      → Above n state
      → lookup id state ≢ some visiting
  not_visiting id state n d u e = let (m, f, lt) = u id e in omega (arith, Depth-unique f d)

  visit_accepts :
      (fuel : ℕ) (id : String) (state : Dict Mark) {n : ℕ}
      → Depth predecessors id n
      → Above n state
      → visit fuel predecessors id state ≢ err out_of_fuel
      → (after : Dict Mark) × (visit fuel predecessors id state ≡ ok after) × Clears state after
  unfolding visit
  visit_accepts zero id state d u f = absurd (f refl)
  visit_accepts (suc fuel) id state (top e) u f = elim (Option-cases (lookup id state)) [
    | inl g ↦ (
      insert id visited (insert id visiting state),
      rw (g, e, visit),
      Clears-close id state (insert id visiting state) (λ v m. m),
    )
    | inr (visiting, g) ↦ absurd (not_visiting id state zero (top e) u g)
    | inr (visited, g) ↦ (state, rw (g, visit), λ v m. m)
  ]
  visit_accepts (suc fuel) id state (below {n = k} p e d) u f =
      elim (Option-cases (lookup id state)) [
        | inl g ↦
            let unfolded = visit_fresh fuel predecessors id p state g e in
            let (inner, run, clears) =
              visit_accepts fuel p (insert id visiting state) d (Above-visiting id p state k e d u)
                (λ x. f (rw (unfolded, x))) in
            (insert id visited inner, rw (unfolded, run), Clears-close id state inner clears)
        | inr (visiting, g) ↦ absurd (not_visiting id state (suc k) (below p e d) u g)
        | inr (visited, g) ↦ (state, rw (g, visit), λ v m. m)
      ]

  -- Between two calls nothing is under visit.
  abbrev Calm : Dict Mark → Type 0
  Calm state = (v : String) → lookup v state ≢ some visiting

  pub visit_all_accepts :
      (ids : List String) (state : Dict Mark)
      → ((v : String) → mem v ids ≡ true → (n : ℕ) × Depth predecessors v n)
      → Calm state
      → (after : Dict Mark) × (visit_all predecessors ids state ≡ ok after)
  unfolding visit_all mem distinct
  visit_all_accepts [] state ends calm = (state, refl)
  visit_all_accepts (id ∷ ids) state ends calm =
      let (n, d) = ends id (ground (arith, eq_refl id)) in
      let (mid, run, clears) =
        visit_accepts (chain_fuel predecessors) id state d (λ v m. absurd (calm v m))
          (visit_returns (chain_fuel predecessors) id state [] refl (λ a m. absurd cc)
            (λ a m. absurd cc) (omega arith)) in
      let (after, rest) =
        visit_all_accepts ids mid (λ v m. ends v (ground (arith, m)))
          (λ v m. calm v (clears v m)) in
      (after, rw run rest)

  pub visit_all_returns :
      (ids : List String) (state : Dict Mark) → visit_all predecessors ids state ≢ err out_of_fuel
  unfolding visit_all mem distinct
  visit_all_returns [] state = λ e. ground arith
  visit_all_returns (id ∷ ids) state =
      let stop =
        visit_returns (chain_fuel predecessors) id state [] refl (λ a m. absurd cc)
          (λ a m. absurd cc) (omega arith) in
      elim (Result-cases (visit (chain_fuel predecessors) predecessors id state)) [
        | inl (mid, run) ↦ rw run (visit_all_returns ids mid)
        | inr (e, run) ↦ rw run (λ f. stop (run ∙ f))
      ]
