-- ===== src/Lineage/Descendants/Exact.antt =====
-- lineage.go: what `descendants` lists, where it returns.
use mathlib.Core.Path.{subst}
use hubnot.Prelude.{
  ℕ, zero, suc, ◌≡◌, refl, true, ◌⊎◌, ◌↔◌, inl, inr, String, List, [], ◌∷◌, ◌++◌, some, ok, arith,
  Bool-cases, ◌==◌, eq_iff, eq_refl,
}
use hubnot.Prelude.Strings.{mem, mem-append}
use hubnot.Prelude.Maps.{lookup, slices}
use hubnot.Lineage.Index.{LineageIndex}
use hubnot.Lineage.Query.{push_stack, collect_descendants}
use hubnot.Lineage.Chain.{Ascends, here, up, Below}
use hubnot.Lineage.Build.{IsLinked}
use hubnot.Lineage.Descendants.Stack.{mem-push_stack}

module _ (index : LineageIndex) (linked : IsLinked index) (start : String) where
  abbrev IsOrigin : List String → String → Type 0
  IsOrigin found v = (v ≡ start) ⊎ (mem v found ≡ true)

  record Searched (found stack : List String) : Type 0 where
    sound_found : (x : String) → mem x found ≡ true → Below index.predecessors start x
    sound_stack : (x : String) → mem x stack ≡ true → Below index.predecessors start x
    closed :
        (v x : String)
        → IsOrigin found v
        → mem x (slices v index.successors_by_id) ≡ true
        → (mem x found ≡ true) ⊎ (mem x stack ≡ true)

  step-Searched :
      (found stack : List String) (c : String)
      → Searched found (c ∷ stack)
      → Searched (found ++ c ∷ []) (push_stack (slices c index.successors_by_id) stack)
  unfolding mem
  step-Searched found stack c s = record {
    sound_found = λ x m. elim (Bool-cases (mem x found)) [
      | inl old ↦ s.sound_found x old
      | inr new ↦ s.sound_stack x (ground (arith, mem-append x found (c ∷ []), eq_iff c x))
    ];
    sound_stack = λ x m. elim (Bool-cases (mem x stack)) [
      | inl old ↦ s.sound_stack x (ground (arith, old))
      | inr new ↦
          let child : mem x (slices c index.successors_by_id) ≡ true =
            ground (arith, mem-push_stack x (slices c index.successors_by_id) stack) in
          let (p, e, chain) = s.sound_stack c (ground (arith, eq_refl c)) in
          (c, linked.parent x c child, up p e chain)
    ];
    closed = λ v x o m. elim (Bool-cases (c == v)) [
      | inl same ↦
          let same' : c ≡ v = (eq_iff c v).0 same in
          inr (ground (arith, mem-push_stack x (slices c index.successors_by_id) stack))
      | inr other ↦
          let before : IsOrigin found v = ground (arith, mem-append v found (c ∷ [])) in
          ground (
            arith,
            s.closed v x before m,
            mem-append x found (c ∷ []),
            mem-push_stack x (slices c index.successors_by_id) stack,
          )
    ];
  }

  collect_Searched :
      (fuel : ℕ) (visited found stack : List String) {out : List String}
      → collect_descendants fuel index.successors_by_id visited found stack ≡ ok out
      → Searched found stack
      → Searched out []
  unfolding collect_descendants
  collect_Searched zero visited found stack h s = absurd (ground arith)
  collect_Searched (suc fuel) visited found [] {out} h s =
      let same : found ≡ out = ground arith in subst (λ l. Searched l []) same s
  collect_Searched (suc fuel) visited found (c ∷ stack) h s = elim (Bool-cases (mem c visited)) [
    | inl seen ↦ absurd (ground arith)
    | inr fresh ↦
        collect_Searched fuel (c ∷ visited) (found ++ c ∷ [])
          (push_stack (slices c index.successors_by_id) stack)
          (rw (fresh, collect_descendants) at h) (step-Searched found stack c s)
  ]

  start-Searched : Searched [] (push_stack (slices start index.successors_by_id) [])
  unfolding mem
  start-Searched = record {
    sound_found = λ x m. absurd cc;
    sound_stack = λ x m. (
      start,
      linked.parent x start
          (ground (arith, mem-push_stack x (slices start index.successors_by_id) [])),
      here,
    );
    closed =
        λ v x o m. inr (ground (arith, mem-push_stack x (slices start index.successors_by_id) []));
  }

  complete :
      (out : List String) (x p : String)
      → Searched out []
      → Ascends index.predecessors p start
      → lookup x index.predecessors ≡ some p
      → mem x out ≡ true
  unfolding mem
  complete out x p s here e = ground (arith, s.closed p x (inl refl) (linked.child x p e))
  complete out x p s (up q f chain) e =
      ground (arith, s.closed p x (inr (complete out p q s chain f)) (linked.child x p e))

  -- A run of the loop that returns finds exactly what is below the start.
  pub collect_exact :
      (fuel : ℕ) (visited out : List String)
      → collect_descendants fuel index.successors_by_id visited []
          (push_stack (slices start index.successors_by_id) [])
        ≡ ok out
      → (x : String) → (mem x out ≡ true) ↔ Below index.predecessors start x
  collect_exact fuel visited out h x =
      let s =
        collect_Searched fuel visited [] (push_stack (slices start index.successors_by_id) []) h
          start-Searched in
      (s.sound_found x, λ b. complete out x b.0 s b.2 b.1)
