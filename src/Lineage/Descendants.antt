-- ===== src/Lineage/Descendants.antt =====
-- lineage.go: about `descendants`.
mod Stack
mod Exact
mod Total
use hubnot.Prelude.{
  ℕ, suc, ◌≡◌, sym, ◌∙◌, true, ◌↔◌, String, List, [], ◌∷◌, ok, >>=-eq-ok, arith, if◌then◌else◌,
}
use hubnot.Prelude.Strings.{mem}
use hubnot.Prelude.Maps.{lookup, slices, present}
use hubnot.Prelude.Sort.{mem-sort_strings, sort_strings}
use hubnot.Lineage.Index.{LineageIndex, chain_fuel}
use hubnot.Lineage.Query.{descendants, collect_descendants, push_stack, require_proposal}
use hubnot.Lineage.Chain.{Depth, Below}
use hubnot.Lineage.Build.{IsLinked}
use Exact.{collect_exact}
use Total.{collect_total}

-- `descendants` of a proposal whose chain ends: it returns, with exactly what is below the proposal.
pub descendants_exact :
    (index : LineageIndex) (id : String) {n : ℕ}
    → IsLinked index
    → present (lookup id index.proposals) ≡ true
    → Depth index.predecessors id n
    → (out : List String) × (descendants index id ≡ ok out)
      × ((x : String) → (mem x out ≡ true) ↔ Below index.predecessors id x)
unfolding descendants
descendants_exact index id v p d =
    let (found, run) = collect_total index v id d in
    (
      sort_strings found,
      rw (p, run),
      λ x.
          let exact =
            collect_exact index v id (suc (chain_fuel index.predecessors)) (id ∷ []) found run x in
          (
            λ m. exact.0 (sym (mem-sort_strings x found) ∙ m),
            λ b. mem-sort_strings x found ∙ exact.1 b,
          ),
    )
