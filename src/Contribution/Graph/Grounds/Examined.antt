-- ===== src/Contribution/Graph/Grounds/Examined.antt =====
-- internal/contribution/model.go: what `getFact` finds out about one fact.
use hubnot.Prelude.{
  ℕ, suc, ◌≤◌, ◌<◌, ◌≡◌, ◌≢◌, true, false, not, ◌&&◌, String, List, [], ◌∷◌, ◌++◌, ok, err,
  out_of_fuel, arith, All, All-map, All-append, All-zip, ltb, ◌==◌, eq_iff, if◌then◌else◌, is_empty,
  Bool-cases, inl, inr, int_lt,
}
use hubnot.Contribution.Checks.{valid_actor}
use hubnot.Contribution.Rules.{content_operation}
use hubnot.Contribution.Records.{
  Reference, Content, dependency_ids, reference_ids, validate_content,
}
use hubnot.Contribution.Graph.Facts.{
  NativeFact, FactTable, Sources, Lookup, return, depth_of, deepest, check_fact, all_dependencies,
  is_reply, measure, examine,
}
use hubnot.Contribution.Graph.Grounds.{
  Has, Good, Grounded, Precedes, Refers, Lower, Precedes-grows, Edits-grows,
}
use hubnot.Contribution.Graph.Grounds.Runs.{
  Extends-refl, Leaves, resume-Leaves, return-Leaves, require-Leaves, Leaves-map,
}
use hubnot.Contribution.Graph.Grounds.Loops.{
  Finds, Rooted, check_parents-Precedes, check_references-Refers, check_root-Rooted,
}

deepest-ge : (t : FactTable) (deps : List String) (m : ℕ) → m ≤ deepest t deps m
unfolding deepest
deepest-ge t [] m = omega arith
deepest-ge t (dep ∷ deps) m =
    ground (arith, deepest-ge t deps m, deepest-ge t deps (suc (depth_of dep t)))

-- Every dependency is at a smaller depth than the deepest.
deepest-lt :
    (t : FactTable) (deps : List String) (m : ℕ)
    → All (λ dep. depth_of dep t < deepest t deps m) deps
unfolding deepest
deepest-lt t [] m = tt
deepest-lt t (dep ∷ deps) m =
    let next = if ltb m (suc (depth_of dep t)) then suc (depth_of dep t) else m in
    (
      ground (arith, deepest-ge t deps m, deepest-ge t deps (suc (depth_of dep t))),
      deepest-lt t deps next,
    )

abbrev Present : FactTable → String → Type 0
Present t id = (f : NativeFact) × Has t id f

references-Present :
    (t : FactTable) (refs : List Reference)
    → All (Refers t) refs
    → All (Present t) (reference_ids refs)
unfolding reference_ids
references-Present t [] h = tt
references-Present t (r ∷ refs) h = ((h.0.0, h.0.1), references-Present t refs h.1)

all-Present :
    (t : FactTable) (id : String) (f : NativeFact)
    → Rooted id f t
    → All (Precedes t f.content) f.content.parents
    → All (Refers t) f.content.references
    → All (Present t) (all_dependencies id f.content)
unfolding all_dependencies dependency_ids
all-Present t id f rooted parents refs =
    All-append (Present t) (f.content.parents ++ reference_ids f.content.references)
      (if f.content.root_id == id then [] else f.content.root_id ∷ [])
      (All-append (Present t) f.content.parents (reference_ids f.content.references)
        (All-map (Precedes t f.content) (Present t) (λ p h. (h.0, h.1)) f.content.parents parents)
        (references-Present t f.content.references refs))
      (elim (Bool-cases (f.content.root_id == id)) [
        | inl e ↦ rw e tt
        | inr e ↦
            let edits = rooted.1 (λ same. ground (arith, eq_iff f.content.root_id id)) in
            rw e ((edits.0, edits.1), tt)
      ])

validate_content_returns : (c : Content) → validate_content c ≢ err out_of_fuel
unfolding validate_content
validate_content_returns c e = ground arith

module _ (s : Sources) (get : String → Lookup NativeFact) (finds : Finds s get) where
  measured :
      (t : FactTable) (id : String) (f : NativeFact)
      → Rooted id f t
      → All (Precedes t f.content) f.content.parents
      → All (Refers t) f.content.references
      → All (Lower t (deepest t (all_dependencies id f.content) 0)) (all_dependencies id f.content)
  measured t id f rooted parents refs =
      let deps = all_dependencies id f.content in
      let depth = deepest t deps 0 in
      All-map (λ d. Present t d × (depth_of d t < depth)) (Lower t depth)
        (λ d h. (h.0.0, h.0.1, h.1)) deps
        (All-zip (Present t) (λ d. depth_of d t < depth) deps
          (all-Present t id f rooted parents refs) (deepest-lt t deps 0))

  -- What `check_fact` finds.
  abbrev Shaped : String → NativeFact → Type 0
  Shaped id f =
      (f.content.revision ≡ id)
      × (valid_actor f.actor ≡ true)
      × (content_operation f.operation ≡ true)
      × (validate_content f.content ≡ ok tt)

  check_fact-Shaped :
      (id : String) (f : NativeFact) (t : FactTable)
      → Good s t
      → Leaves s t (λ done u. Shaped id f) (check_fact id f t)
  unfolding check_fact
  check_fact-Shaped id f t g =
      require-Leaves s t (λ done u. Shaped id f) _ _ (return (validate_content f.content)) g
        (λ e.
          Leaves-map s t (λ done u. validate_content f.content ≡ ok done) (λ done u. Shaped id f) _
            (return-Leaves s t (validate_content f.content) g (validate_content_returns f.content))
            (λ done u x v.
              (ground (arith, eq_iff f.content.revision id), ground arith, ground arith, v)))

  abbrev Found : String → NativeFact × ℕ → FactTable → Type 0
  Found id found u = Grounded s u id found.0 found.1

  measure-Grounded :
      (id : String) (f : NativeFact) (t : FactTable)
      → Good s t
      → s.native id ≡ ok f
      → Shaped id f
      → Rooted id f t
      → All (Precedes t f.content) f.content.parents
      → All (Refers t) f.content.references
      → (is_reply f.operation ≡ true → is_empty f.content.references ≡ false)
      → Leaves s t (Found id) (measure s id f t)
  unfolding measure
  measure-Grounded id f t g n shaped rooted parents refs replies =
      let depth = deepest t (all_dependencies id f.content) 0 in
      elim (Bool-cases (int_lt s.limits.depth depth)) [
        | inl e ↦ rw e (Extends-refl, g, λ x. ground (arith, x))
        | inr e ↦ rw e (
          Extends-refl,
          g,
          record {
            supplied = n;
            named = shaped.0;
            signed = shaped.1;
            operates = shaped.2;
            content_valid = shaped.3;
            creates = rooted.0;
            edits = rooted.1;
            parents = parents;
            references = refs;
            replies = replies;
            lower = measured t id f rooted parents refs;
            bounded = e;
          },
        )
      ]

  pub examine-Grounded :
      (id : String) (t : FactTable)
      → Good s t
      → s.native id ≢ err out_of_fuel
      → Leaves s t (λ found u. Grounded s u id found.0 found.1) (examine get s id t)
  unfolding examine
  examine-Grounded id t g n =
      resume-Leaves s t (λ f u. s.native id ≡ ok f) (Found id) _ _
        (return-Leaves s t (s.native id) g n)
        (λ f t1 x1 g1 supplied.
          resume-Leaves s t1 (λ done u. Shaped id f) (Found id) _ _ (check_fact-Shaped id f t1 g1)
            (λ a t2 x2 g2 shaped.
              resume-Leaves s t2 (λ done u. Rooted id f u) (Found id) _ _
                (check_root-Rooted s get finds id f t2 g2)
                (λ b t3 x3 g3 rooted.
                  resume-Leaves s t3 (λ done u. All (Precedes u f.content) f.content.parents)
                    (Found id) _ _
                    (check_parents-Precedes s get finds f.content f.content.parents t3 g3)
                    (λ c t4 x4 g4 parents.
                      resume-Leaves s t4 (λ done u. All (Refers u) f.content.references) (Found id)
                        _ _ (check_references-Refers s get finds f.content.references t4 g4)
                        (λ d t5 x5 g5 refs.
                          require-Leaves s t5 (Found id)
                            (not (is_reply f.operation && is_empty f.content.references))
                            "reply lacks exact target reference" (measure s id f) g5
                            (λ answers.
                              measure-Grounded id f t5 g5 supplied shaped
                                (
                                  rooted.0,
                                  λ other.
                                      Edits-grows x5.grows f
                                        (Edits-grows x4.grows f (rooted.1 other)),
                                )
                                (All-map (Precedes t4 f.content) (Precedes t5 f.content)
                                  (Precedes-grows x5.grows f.content) f.content.parents parents)
                                refs (λ reply. ground arith)))))))
