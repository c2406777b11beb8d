-- ===== src/Lineage/Ancestors.antt =====
-- lineage.go: about `ancestors`.
use mathlib.Core.Path.{subst}
use mathlib.Core.Option.{some-injective}
use hubnot.Prelude.{
  ℕ, zero, suc, ◌+◌, ◌<◌, ◌≤◌, ◌≡◌, refl, sym, ◌∙◌, true, ◌⊎◌, ◌↔◌, inl, inr, String, List, [], ◌∷◌,
  ◌++◌, some, ok, arith, Bool-cases, Option-cases, ◌==◌, eq_iff, length,
}
use hubnot.Prelude.Strings.{mem, mem-append, distinct, Within, length-le-of_distinct}
use hubnot.Prelude.Maps.{Dict, lookup, keys, length-keys, present}
use hubnot.Prelude.Sort.{mem-sort_strings, sort_strings}
use hubnot.Lineage.Index.{LineageIndex, chain_fuel}
use hubnot.Lineage.Query.{collect_ancestors, ancestors}
use hubnot.Lineage.Chain.{Ascends, here, up, Depth, top, below, Above}
use hubnot.Lineage.Root.{Within-cons, Deeper, Deeper-cons, not_visited}

module _ (predecessors : Dict String) where
  Above-cases :
      (a p x : String)
      → lookup a predecessors ≡ some p
      → Above predecessors a x
      → (x ≡ p) ⊎ Above predecessors p x
  Above-cases a p x e (q, f, here) = inl (some-injective q p (sym f ∙ e))
  Above-cases a p x e (q, f, up {b = b} r g chain) =
      let same : q ≡ p = some-injective q p (sym f ∙ e) in inr (r, rw same at g, chain)

  collect_exact :
      (fuel : ℕ) (visited found : List String) (id : String) {out : List String}
      → collect_ancestors fuel predecessors visited found id ≡ ok out
      → (x : String) → (mem x out ≡ true) ↔ ((mem x found ≡ true) ⊎ Above predecessors id x)
  unfolding collect_ancestors mem
  collect_exact zero visited found id h x = absurd (ground arith)
  collect_exact (suc fuel) visited found id {out} h x =
      elim (Option-cases (lookup id predecessors)) [
        | inl e ↦
            let same : found ≡ out = ground arith in
            (
              λ m. inl (rw same m),
              λ s. elim s [ inl m ↦ rw (← same) m | inr (p, f, chain) ↦ absurd (cc) ],
            )
        | inr (p, e) ↦ elim (Bool-cases (mem p visited)) [
          | inl seen ↦ absurd (ground arith)
          | inr fresh ↦
              let more =
                collect_exact fuel (p ∷ visited) (found ++ p ∷ []) p
                  (rw (e, fresh, collect_ancestors) at h) x in
              (
                λ m. elim (more.0 m) [
                  | inl old ↦ elim (Bool-cases (p == x)) [
                    | inl same ↦
                        inr (p, e, subst (λ y. Ascends predecessors p y) ((eq_iff p x).0 same) here)
                    | inr other ↦ inl (ground (arith, mem-append x found (p ∷ [])))
                  ]
                  | inr (q, f, chain) ↦ inr (p, e, up q f chain)
                ],
                λ s. elim s [
                  | inl old ↦ more.1 (inl (ground (arith, mem-append x found (p ∷ []))))
                  | inr a ↦ elim (Above-cases id p x e a) [
                    | inl same ↦
                        more.1 (inl (ground (arith, mem-append x found (p ∷ []), eq_iff p x)))
                    | inr higher ↦ more.1 (inr higher)
                  ]
                ],
              )
        ]
      ]

  -- A chain that ends passes distinct keys of the map.
  Depth-bound :
      (visited : List String) (id : String) {n : ℕ}
      → Depth predecessors id n
      → Deeper predecessors n visited
      → distinct visited ≡ true
      → Within visited (keys predecessors)
      → n + length visited ≤ length predecessors
  Depth-bound visited id (top e) v d w =
      omega (arith, length-le-of_distinct visited (keys predecessors) d w, length-keys predecessors)
  Depth-bound visited id (below {n = k} p e c) v d w =
      let fresh = not_visited predecessors visited id (suc k) (below p e c) v in
      omega (
        arith,
        Depth-bound (id ∷ visited) p c (Deeper-cons predecessors visited id p k e c v)
            (unfold distinct in ground arith) (Within-cons predecessors visited id p e w),
      )

  abbrev NoShallower : ℕ → List String → Type 0
  NoShallower n visited =
      (v : String) → mem v visited ≡ true → (m : ℕ) × Depth predecessors v m × (n ≤ m)

  collect_returns :
      (fuel : ℕ) (visited found : List String) (id : String) {n : ℕ}
      → Depth predecessors id n
      → NoShallower n visited
      → n < fuel
      → (out : List String) × (collect_ancestors fuel predecessors visited found id ≡ ok out)
  unfolding collect_ancestors mem
  collect_returns zero visited found id d v h = absurd (omega arith)
  collect_returns (suc fuel) visited found id (top e) v h = (found, rw (e, collect_ancestors))
  collect_returns (suc fuel) visited found id (below {n = k} p e d) v h =
      let fresh = not_visited predecessors visited p k d v in
      let (out, run) =
        collect_returns fuel (p ∷ visited) (found ++ p ∷ []) p d
          (λ a m. elim (Bool-cases (p == a)) [
            | inl same ↦
                (k, subst (λ y. Depth predecessors y k) ((eq_iff p a).0 same) d, omega arith)
            | inr other ↦ let (j, deep, le) = v a (ground (arith, m)) in (j, deep, omega arith)
          ])
          (omega arith) in
      (out, rw (e, fresh, collect_ancestors) run)

collect_total :
    (predecessors : Dict String) (id : String) {n : ℕ}
    → Depth predecessors id n
    → (found : List String) × (collect_ancestors
          (suc (chain_fuel predecessors))
          predecessors
          (id ∷ [])
          []
          id
        ≡ ok found)
unfolding mem distinct
collect_total predecessors id {n} d =
    let bound = Depth-bound predecessors [] id d (λ v m. absurd cc) refl (λ v m. absurd cc) in
    collect_returns predecessors (suc (chain_fuel predecessors)) (id ∷ []) [] id d
      (λ v m.
        (n, subst (λ y. Depth predecessors y n) ((eq_iff id v).0 (ground arith)) d, omega arith))
      (omega arith)

-- `ancestors` of a proposal whose chain ends: it returns, with exactly what is above the proposal.
pub ancestors_exact :
    (index : LineageIndex) (id : String) {n : ℕ}
    → present (lookup id index.proposals) ≡ true
    → Depth index.predecessors id n
    → (out : List String) × (ancestors index id ≡ ok out)
      × ((x : String) → (mem x out ≡ true) ↔ Above index.predecessors id x)
unfolding ancestors mem
ancestors_exact index id p d =
    let (found, run) = collect_total index.predecessors id d in
    (
      sort_strings found,
      rw (p, run),
      λ x.
          let exact =
            collect_exact index.predecessors (suc (chain_fuel index.predecessors)) (id ∷ []) [] id
              run x in
          (
            λ m. elim (exact.0 (sym (mem-sort_strings x found) ∙ m)) [
              | inl old ↦ absurd cc
              | inr a ↦ a
            ],
            λ a. mem-sort_strings x found ∙ exact.1 (inr a),
          ),
    )
