-- ===== src/Lineage/Members.antt =====
-- lineage.go: about `members`, the whole lineage of a proposal.
use hubnot.Prelude.{
  ℕ, zero, suc, ◌≡◌, refl, sym, ◌∙◌, ap, true, ◌↔◌, ◌⊎◌, inl, inr, String, List, [], ◌∷◌, ◌++◌,
  none, ok, arith, >>=-eq-ok, Bool-cases, eq_iff,
}
use mathlib.Core.Path.{subst}
use hubnot.Prelude.Strings.{mem, mem-append, distinct, distinct-snoc}
use hubnot.Prelude.Maps.{Dict, lookup, present, slices}
use hubnot.Prelude.Sort.{
  sort_strings, mem-sort_strings, distinct-sort_strings, distinct-cons-sort_strings,
}
use hubnot.Lineage.Index.{LineageIndex, chain_fuel}
use hubnot.Lineage.Query.{
  root, members, descendants, collect_descendants, push_stack, require_proposal,
}
use hubnot.Lineage.Chain.{Ascends, here, up, Below, Ascends-unique, Ascends-trans}
use hubnot.Lineage.Root.{root_exists, root_sound}
use hubnot.Lineage.Acyclic.{ChainsEnd}
use hubnot.Lineage.Build.{IsLinked}
use hubnot.Lineage.Descendants.{descendants_exact}

-- The search finds no ID twice, and never its start.
collect_distinct :
    (fuel : ℕ) (children : Dict (List String)) (start : String) (visited found stack : List String)
    {out : List String}
    → collect_descendants fuel children visited found stack ≡ ok out
    → ((x : String) → mem x (start ∷ found) ≡ true → mem x visited ≡ true)
    → distinct (start ∷ found) ≡ true
    → distinct (start ∷ out) ≡ true
unfolding collect_descendants mem distinct
collect_distinct zero children start visited found stack h w d = absurd (ground arith)
collect_distinct (suc fuel) children start visited found [] h w d = ground arith
collect_distinct (suc fuel) children start visited found (c ∷ stack) h w d =
    elim (Bool-cases (mem c visited)) [
      | inl seen ↦ absurd (ground arith)
      | inr fresh ↦
          collect_distinct fuel children start (c ∷ visited) (found ++ c ∷ [])
            (push_stack (slices c children) stack) (rw (fresh, collect_descendants) at h)
            (λ x m. ground (arith, mem-append x found (c ∷ []), w x))
            (ground (
              arith,
              distinct-snoc found c,
              mem-append start found (c ∷ []),
              w c,
              w start,
              eq_iff c start,
              eq_iff start c,
            ))
    ]

module _ (index : LineageIndex) (linked : IsLinked index) (ends : ChainsEnd index) where
  -- What a chain reaches from a proposal is a proposal.
  pub Ascends-present :
      {a b : String}
      → Ascends index.predecessors a b
      → present (lookup a index.proposals) ≡ true
      → present (lookup b index.proposals) ≡ true
  Ascends-present here p = p
  Ascends-present (up q e chain) p = Ascends-present chain (linked.known _ q e).1

  -- `root` returns for every proposal: the one proposal above it without predecessor.
  pub root_total :
      (id : String)
      → present (lookup id index.proposals) ≡ true
      → (r : String) × (root index id ≡ ok r)
        × Ascends index.predecessors id r
        × (lookup r index.predecessors ≡ none)
  root_total id p =
      let (n, d) = ends id p in
      let (r, run) = root_exists index id p d in
      let (chain, last) = root_sound index id run in (r, run, chain, last)

  Below-or_root :
      (x r : String) → Ascends index.predecessors x r → (x ≡ r) ⊎ Below index.predecessors r x
  Below-or_root x r here = inl refl
  Below-or_root x r (up p e chain) = inr (p, e, chain)

  -- The lineage below the root and the root itself, as `members` joins them.
  joined :
      (below : List String) (r x : String)
      → ((y : String) → (mem y below ≡ true) ↔ Below index.predecessors r y)
      → (mem x (sort_strings (below ++ r ∷ [])) ≡ true) ↔ Ascends index.predecessors x r
  unfolding mem
  joined below r x exact = (
    λ m. elim (Bool-cases (mem x below)) [
      | inl under ↦ let (p, e, chain) = (exact x).0 under in up p e chain
      | inr other ↦
          let same : r ≡ x = ground (
            arith,
            mem-sort_strings x (below ++ r ∷ []),
            mem-append x below (r ∷ []),
            eq_iff r x,
          ) in
          subst (λ y. Ascends index.predecessors y r) same here
    ],
    λ chain. elim (Below-or_root x r chain) [
      | inl same ↦
          ground
            (arith, mem-sort_strings x (below ++ r ∷ []), mem-append x below (r ∷ []), eq_iff r x)
      | inr under ↦ ground (
        arith,
        mem-sort_strings x (below ++ r ∷ []),
        mem-append x below (r ∷ []),
        (exact x).1 under,
      )
    ],
  )

  -- `members` returns for every proposal, and lists exactly the IDs whose chain leads to its root.
  pub members_exact :
      (id : String)
      → present (lookup id index.proposals) ≡ true
      → (r : String) × (out : List String) × (root index id ≡ ok r)
        × (members index id ≡ ok out)
        × ((x : String) → (mem x out ≡ true) ↔ Ascends index.predecessors x r)
  unfolding members
  members_exact id p =
      let (r, run, chain, last) = root_total id p in
      let (n, d) = ends r (Ascends-present chain p) in
      let (below, search, exact) = descendants_exact index r linked (Ascends-present chain p) d in
      (r, sort_strings (below ++ r ∷ []), run, rw (run, search), λ x. joined below r x exact)

  -- Two proposals on one chain have the same root.
  pub root_along :
      {a b : String}
      → Ascends index.predecessors a b
      → present (lookup a index.proposals) ≡ true
      → root index a ≡ root index b
  root_along {a} {b} chain p =
      let (r, run, up_a, last_a) = root_total a p in
      let (q, run', up_b, last_b) = root_total b (Ascends-present chain p) in
      let same = Ascends-unique up_a (Ascends-trans chain up_b) last_a last_b in
      run ∙ ap ok same ∙ sym run'

  -- A proposal and its predecessor have the same members.
  pub members_along :
      {a b : String}
      → Ascends index.predecessors a b
      → present (lookup a index.proposals) ≡ true
      → members index a ≡ members index b
  unfolding members
  members_along chain p = rw (root_along chain p)

-- `descendants` lists no ID twice, and not the proposal itself.
descendants-distinct :
    (index : LineageIndex) (id : String) {out : List String}
    → descendants index id ≡ ok out
    → distinct (id ∷ out) ≡ true
unfolding descendants distinct mem
descendants-distinct index id {out} h =
    let (u, here', rest) = >>=-eq-ok (require_proposal index id) _ h in
    let (found, search, last) =
      >>=-eq-ok
        (collect_descendants (suc (chain_fuel index.predecessors)) index.successors_by_id (id ∷ [])
          [] (push_stack (slices id index.successors_by_id) []))
        (λ f. ok (sort_strings f)) rest in
    let once =
      collect_distinct (suc (chain_fuel index.predecessors)) index.successors_by_id id (id ∷ []) []
        (push_stack (slices id index.successors_by_id) []) search (λ x m. m) refl in
    let same : sort_strings found ≡ out = cc last in
    rw (← same) (distinct-cons-sort_strings id found once)

-- `members` lists no ID twice.
pub members-distinct :
    (index : LineageIndex) (id : String) {out : List String}
    → members index id ≡ ok out
    → distinct out ≡ true
unfolding members distinct
members-distinct index id {out} h =
    let (r, run, rest) = >>=-eq-ok (root index id) _ h in
    let (below, search, last) =
      >>=-eq-ok (descendants index r) (λ b. ok (sort_strings (b ++ r ∷ []))) rest in
    let once = descendants-distinct index r search in
    let same : sort_strings (below ++ r ∷ []) ≡ out = cc last in
    rw (← same) (
      distinct-sort_strings (below ++ r ∷ []) (distinct-snoc below r (ground arith) (ground arith)))
