-- ===== src/Lineage/Descendants/Total.antt =====
-- lineage.go: the fuel of the search of `descendants`.
use mathlib.Core.Path.{subst}
use mathlib.Core.Option.{some-injective}
use hubnot.Prelude.{
  ℕ, zero, suc, ◌+◌, ◌<◌, ◌≤◌, ◌≡◌, refl, sym, ◌∙◌, true, false, ◌⊎◌, inl, inr, String, List, [],
  ◌∷◌, ◌++◌, some, ok, arith, Bool-cases, ◌==◌, eq_iff, eq_refl, length,
}
use hubnot.Prelude.Strings.{mem, distinct, length-le-of_distinct, mem-cons_self}
use hubnot.Prelude.Maps.{Dict, lookup, slices, keys, length-keys, present-lookup}
use hubnot.Lineage.Index.{LineageIndex, chain_fuel}
use hubnot.Lineage.Query.{push_stack, collect_descendants}
use hubnot.Lineage.Chain.{Ascends, here, up, Depth, top, below, Depth-unique}
use hubnot.Lineage.Build.{IsLinked}
use hubnot.Lineage.Descendants.Stack.{mem-push_stack, distinct-push_stack, Apart}

-- A chain that leads back to its start has no end.
module _ (predecessors : Dict String) where
  Depth-up :
      {a b : String} {n : ℕ}
      → Depth predecessors a n
      → Ascends predecessors a b
      → (m : ℕ) × Depth predecessors b m × (m ≤ n)
  Depth-up {n = n} d here = (n, d, omega arith)
  Depth-up (top e) (up p f r) = absurd (cc)
  Depth-up (below {n = k} q e d) (up p f r) =
      let same : q ≡ p = some-injective q p (sym e ∙ f) in
      let (m, top', le) = Depth-up (subst (λ x. Depth predecessors x k) same d) r in
      (m, top', omega arith)

  pub no_loop :
      (a p : String) (n : ℕ)
      → Depth predecessors a n
      → lookup a predecessors ≡ some p
      → Ascends predecessors p a
      → ⊥
  no_loop a p n (top e) f r = absurd cc
  no_loop a p n (below {n = k} q e d) f r =
      let same : q ≡ p = some-injective q p (sym e ∙ f) in
      let (m, again, le) = Depth-up (subst (λ x. Depth predecessors x k) same d) r in
      omega (arith, Depth-unique again (below q e d))

module _ (index : LineageIndex) (linked : IsLinked index) (start : String) {n : ℕ}
    (ends : Depth index.predecessors start n) where
  abbrev children : String → List String
  children c = slices c index.successors_by_id

  -- No ID waits that was visited, and each ID met but the start was met from its predecessor.
  record Orderly (visited stack : List String) : Type 0 where
    apart : Apart stack visited
    visited_once : distinct visited ≡ true
    stack_once : distinct stack ≡ true
    origin : mem start visited ≡ true
    known :
        (x : String)
        → (mem x visited ≡ true) ⊎ (mem x stack ≡ true)
        → (x ≡ start)
          ⊎ ((p : String) × (lookup x index.predecessors ≡ some p)
              × (mem p visited ≡ true)
              × Ascends index.predecessors p start)

  -- The chain from an ID that was met leads to the start.
  leads :
      (visited stack : List String) (x : String)
      → Orderly visited stack
      → (mem x visited ≡ true) ⊎ (mem x stack ≡ true)
      → Ascends index.predecessors x start
  leads visited stack x o m = elim (o.known x m) [
    | inl e ↦ subst (λ y. Ascends index.predecessors y start) (sym e) here
    | inr (p, e, v, chain) ↦ up p e chain
  ]

  -- A successor of the ID on the stack's top was not met before.
  child_unmet :
      (visited stack : List String) (c x : String)
      → Orderly visited (c ∷ stack)
      → mem x (children c) ≡ true
      → (mem x visited ≡ true) ⊎ (mem x (c ∷ stack) ≡ true)
      → ⊥
  child_unmet visited stack c x o m met =
      let e = linked.parent x c m in
      elim (o.known x met) [
        | inl same ↦
            no_loop index.predecessors start c n ends (rw same at e)
              (leads visited (c ∷ stack) c o (inr (mem-cons_self c stack)))
        | inr (p, f, v, chain) ↦
            let same : p ≡ c = some-injective p c (sym f ∙ e) in
            let waits = o.apart c (mem-cons_self c stack) in cc (rw same at v)
      ]

  child_fresh :
      (visited stack : List String) (c x : String)
      → Orderly visited (c ∷ stack)
      → mem x (children c) ≡ true
      → (mem x visited ≡ false) × (mem x (c ∷ stack) ≡ false)
  child_fresh visited stack c x o m = (
    elim (Bool-cases (mem x visited)) [
      | inl met ↦ absurd (child_unmet visited stack c x o m (inl met))
      | inr fresh ↦ fresh
    ],
    elim (Bool-cases (mem x (c ∷ stack))) [
      | inl met ↦ absurd (child_unmet visited stack c x o m (inr met))
      | inr fresh ↦ fresh
    ],
  )

  step-Orderly :
      (visited stack : List String) (c : String)
      → Orderly visited (c ∷ stack)
      → Orderly (c ∷ visited) (push_stack (children c) stack)
  unfolding mem distinct
  step-Orderly visited stack c o = record {
    apart = λ a m. elim (Bool-cases (mem a stack)) [
      | inl old ↦ ground (arith, o.apart a, o.stack_once, eq_iff c a)
      | inr new ↦
          ground (arith, mem-push_stack a (children c) stack, child_fresh visited stack c a o)
    ];
    visited_once = ground (arith, o.apart c, eq_refl c);
    stack_once =
        distinct-push_stack (children c) stack (linked.once c) (ground (arith, o.stack_once))
          (λ a m. ground (arith, child_fresh visited stack c a o m));
    origin = ground (arith, o.origin);
    known = λ x met. elim (Bool-cases (mem x (children c))) [
      | inl child ↦ inr (
        c,
        linked.parent x c child,
        ground (arith, eq_refl c),
        leads visited (c ∷ stack) c o (inr (ground (arith, eq_refl c))),
      )
      | inr other ↦
          let before : (mem x visited ≡ true) ⊎ (mem x (c ∷ stack) ≡ true) =
            ground (arith, mem-push_stack x (children c) stack) in
          elim (o.known x before) [
            | inl same ↦ inl same
            | inr (p, e, v, chain) ↦ inr (p, e, ground arith, chain)
          ]
    ];
  }

  -- What is visited is the start or has a predecessor, so the fuel is enough.
  visited_bound :
      (visited stack : List String)
      → Orderly visited stack
      → length visited ≤ suc (length index.predecessors)
  unfolding mem
  visited_bound visited stack o = omega (
    arith,
    length-le-of_distinct visited (start ∷ keys index.predecessors) o.visited_once (λ a m.
        elim (o.known a (inl m)) [
          | inl e ↦ ground (arith, eq_iff start a)
          | inr (p, e, v, chain) ↦ ground (arith, present-lookup a index.predecessors)
        ]),
    length-keys index.predecessors,
  )

  collect_returns :
      (fuel : ℕ) (visited found stack : List String)
      → Orderly visited stack
      → suc (length index.predecessors) < fuel + length visited
      → (out : List String) × (collect_descendants fuel index.successors_by_id visited found stack
          ≡ ok out)
  unfolding collect_descendants
  collect_returns zero visited found stack o h =
      absurd (omega (arith, visited_bound visited stack o))
  collect_returns (suc fuel) visited found [] o h = (found, refl)
  collect_returns (suc fuel) visited found (c ∷ stack) o h =
      let fresh = o.apart c (mem-cons_self c stack) in
      let (out, run) =
        collect_returns fuel (c ∷ visited) (found ++ c ∷ []) (push_stack (children c) stack)
          (step-Orderly visited stack c o) (omega arith) in
      (out, rw (fresh, collect_descendants) run)

  start_apart : (a : String) → mem a (children start) ≡ true → (start == a) ≡ false
  start_apart a m = elim (Bool-cases (start == a)) [
    | inl same ↦
        let same' = (eq_iff start a).0 same in
        absurd (
          no_loop index.predecessors start start n ends
            (linked.parent start start (rw (← same') at m)) here)
    | inr other ↦ other
  ]

  start-Orderly : Orderly (start ∷ []) (push_stack (children start) [])
  unfolding mem distinct
  start-Orderly = record {
    apart = λ a m. ground (arith, mem-push_stack a (children start) [], start_apart a);
    visited_once = refl;
    stack_once = distinct-push_stack (children start) [] (linked.once start) refl (λ a m. refl);
    origin = ground (arith, eq_refl start);
    known = λ x met. elim (Bool-cases (mem x (children start))) [
      | inl child ↦ inr (start, linked.parent x start child, ground (arith, eq_refl start), here)
      | inr other ↦ inl (ground (arith, mem-push_stack x (children start) [], eq_iff start x))
    ];
  }

  -- The loop of `descendants` returns.
  pub collect_total :
      (out : List String) × (collect_descendants
          (suc (chain_fuel index.predecessors))
          index.successors_by_id
          (start ∷ [])
          []
          (push_stack (children start) [])
        ≡ ok out)
  collect_total =
      collect_returns (suc (chain_fuel index.predecessors)) (start ∷ []) []
        (push_stack (children start) []) start-Orderly (omega arith)
