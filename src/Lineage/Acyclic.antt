-- ===== src/Lineage/Acyclic.antt =====
-- lineage.go: about `validateAcyclic`.
mod Sound
mod Total
use hubnot.Prelude.{
  ℕ, ◌≡◌, ◌≢◌, refl, true, String, [], ok, err, out_of_fuel, arith, >>=-eq-ok, ◌↔◌, ◌>>=◌, ◌∙◌, inl,
  inr, Result-cases,
}
use hubnot.Prelude.Maps.{lookup, keys, present, present-lookup}
use hubnot.Prelude.Sort.{sort_strings, mem-sort_strings}
use hubnot.Lineage.Index.{LineageIndex, visit_all, validate_acyclic}
use hubnot.Lineage.Chain.{Depth}
use Sound.{visit_all-Sound}
use Total.{visit_all_accepts, visit_all_returns}

-- Every proposal of the index has a chain of predecessors that ends.
abbrev pub ChainsEnd : LineageIndex → Type 0
ChainsEnd index =
    (id : String)
    → present (lookup id index.proposals) ≡ true
    → (n : ℕ) × Depth index.predecessors id n

module _ (index : LineageIndex) where
  pub validate_acyclic_sound : validate_acyclic index ≡ ok tt → ChainsEnd index
  unfolding validate_acyclic
  validate_acyclic_sound h id p =
      let ids = sort_strings (keys index.proposals) in
      let (after, run, last) = >>=-eq-ok (visit_all index.predecessors ids []) (λ a. ok tt) h in
      let (sound, grows, all) =
        visit_all-Sound index.predecessors ids [] run (λ v m. absurd (unfold lookup in cc)) in
      sound id (
        all id (
          ground
            (arith, mem-sort_strings id (keys index.proposals), present-lookup id index.proposals)))

  -- The check passes exactly on the indexes whose chains of predecessors all end.
  pub validate_acyclic_iff : (validate_acyclic index ≡ ok tt) ↔ ChainsEnd index
  unfolding validate_acyclic
  validate_acyclic_iff = (
    validate_acyclic_sound,
    λ ends.
        let (after, run) =
          visit_all_accepts index.predecessors (sort_strings (keys index.proposals)) []
            (λ v m. ends v (
              ground (
                arith,
                mem-sort_strings v (keys index.proposals),
                present-lookup v index.proposals,
              )))
            (λ v m. absurd (unfold lookup in cc)) in
        rw run,
  )

  -- On every index, also one with a cycle, the search ends.
  pub validate_acyclic_terminates : validate_acyclic index ≢ err out_of_fuel
  unfolding validate_acyclic
  validate_acyclic_terminates =
      let ids = sort_strings (keys index.proposals) in
      elim (Result-cases (visit_all index.predecessors ids [])) [
        | inl (after, run) ↦ rw run (λ e. ground arith)
        | inr (e, run) ↦
            rw run (λ f. visit_all_returns index.predecessors ids [] (run ∙ ground (arith, f)))
      ]
