-- ===== src/Contribution/Graph/Grounds/Loops.antt =====
-- internal/contribution/model.go: the loops of `getFact` over what a fact depends on.
use hubnot.Prelude.{
  Bool-cases, inl, inr, ◌≡◌, ◌≢◌, true, not, ◌&&◌, String, List, [], ◌∷◌, arith, All, ◌==◌, eq_iff,
  is_empty,
}
use hubnot.Contribution.Rules.{author_operation}
use hubnot.Contribution.Records.{Reference, Content}
use hubnot.Contribution.Graph.Facts.{
  NativeFact, FactTable, Sources, Lookup, ◌>>=◌, ◌>>◌, require, same_family, check_parents,
  check_references, check_root,
}
use hubnot.Contribution.Graph.Grounds.{
  Has, Good, Precedes, Refers, Edits, Creates, Precedes-grows, Refers-grows,
}
use hubnot.Contribution.Graph.Grounds.Runs.{
  Extends-refl, Leaves, resume-Leaves, require-Leaves, require-Leaves_last, Leaves-map,
}

-- A recursive call that finds grounded facts, whatever the table.
abbrev pub Finds : Sources → (String → Lookup NativeFact) → Type 0
Finds s get = (id : String) (t : FactTable) → Good s t → Leaves s t (λ f u. Has u id f) (get id t)

-- What is known of the root of a fact.
abbrev pub Rooted : String → NativeFact → FactTable → Type 0
Rooted id f t = (f.content.root_id ≡ id → Creates f) × (f.content.root_id ≢ id → Edits t f)

module _ (s : Sources) (get : String → Lookup NativeFact) (finds : Finds s get) where
  pub check_parents-Precedes :
      (c : Content) (parents : List String) (t : FactTable)
      → Good s t
      → Leaves s t (λ done u. All (Precedes u c) parents) (check_parents get c parents t)
  unfolding check_parents
  check_parents-Precedes c [] t g = (Extends-refl, g, tt)
  check_parents-Precedes c (parent ∷ parents) t g =
      resume-Leaves s t (λ f u. Has u parent f) (λ done u. All (Precedes u c) (parent ∷ parents))
        (get parent t)
        (λ p.
          require (p.content.root_id == c.root_id && p.content.author == c.author)
            "cross-root native predecessor"
          >> check_parents get c parents)
        (finds parent t g)
        (λ p u x h found.
          require-Leaves s u (λ done v. All (Precedes v c) (parent ∷ parents))
            (p.content.root_id == c.root_id && p.content.author == c.author)
            "cross-root native predecessor" (check_parents get c parents) h
            (λ e.
              Leaves-map s u (λ done v. All (Precedes v c) parents)
                (λ done v. All (Precedes v c) (parent ∷ parents)) (check_parents get c parents u)
                (check_parents-Precedes c parents u h)
                (λ done v y all. (
                  Precedes-grows y.grows c parent (
                    p,
                    found,
                    ground (arith, eq_iff p.content.root_id c.root_id),
                    ground (arith, eq_iff p.content.author c.author),
                  ),
                  all,
                ))))

  pub check_references-Refers :
      (refs : List Reference) (t : FactTable)
      → Good s t
      → Leaves s t (λ done u. All (Refers u) refs) (check_references get refs t)
  unfolding check_references
  check_references-Refers [] t g = (Extends-refl, g, tt)
  check_references-Refers (r ∷ refs) t g =
      resume-Leaves s t (λ f u. Has u r.id f) (λ done u. All (Refers u) (r ∷ refs)) (get r.id t)
        (λ target.
          require (not (r.kind == "root" && not (target.content.root_id == r.id)))
            "root reference names a non-root revision"
          >> check_references get refs)
        (finds r.id t g)
        (λ target u x h found.
          require-Leaves s u (λ done v. All (Refers v) (r ∷ refs))
            (not (r.kind == "root" && not (target.content.root_id == r.id)))
            "root reference names a non-root revision" (check_references get refs) h
            (λ e.
              Leaves-map s u (λ done v. All (Refers v) refs) (λ done v. All (Refers v) (r ∷ refs))
                (check_references get refs u) (check_references-Refers refs u h)
                (λ done v y all. (
                  Refers-grows y.grows r (
                    target,
                    found,
                    λ k. ground (arith, eq_iff r.kind "root", eq_iff target.content.root_id r.id),
                  ),
                  all,
                ))))

  check_root-Edits :
      (id : String) (f : NativeFact) (t : FactTable)
      → Good s t
      → author_operation f.operation ≡ true
      → Leaves s t
          (λ done u. Edits u f)
          ((get f.content.root_id >>= λ root.
              require
                (root.content.root_id == f.content.root_id
                  && root.content.author == f.content.author
                  && not (is_empty f.content.parents)
                  && same_family root.operation f.operation)
                "invalid native root lineage")
            t)
  check_root-Edits id f t g edits =
      resume-Leaves s t (λ root u. Has u f.content.root_id root) (λ done u. Edits u f)
        (get f.content.root_id t)
        (λ root.
          require
            (root.content.root_id == f.content.root_id
              && root.content.author == f.content.author
              && not (is_empty f.content.parents)
              && same_family root.operation f.operation)
            "invalid native root lineage")
        (finds f.content.root_id t g)
        (λ root u x h found.
          require-Leaves_last s u (λ done v. Edits v f)
            (root.content.root_id == f.content.root_id
              && root.content.author == f.content.author
              && not (is_empty f.content.parents)
              && same_family root.operation f.operation)
            "invalid native root lineage" h
            (λ e. (
              root,
              found,
              ground (arith, eq_iff root.content.root_id f.content.root_id),
              ground (arith, eq_iff root.content.author f.content.author),
              ground arith,
              ground arith,
              edits,
            )))

  pub check_root-Rooted :
      (id : String) (f : NativeFact) (t : FactTable)
      → Good s t
      → Leaves s t (λ done u. Rooted id f u) (check_root get id f t)
  unfolding check_root
  check_root-Rooted id f t g = elim (Bool-cases (f.content.root_id == id)) [
    | inl e ↦ rw e (
        require-Leaves s t (λ done u. Rooted id f u) (not (author_operation f.operation))
          "native edit lacks predecessor lineage"
          (require (f.actor == f.content.author && is_empty f.content.parents)
            "invalid native root/author")
          g
          (λ creates.
            require-Leaves_last s t (λ done u. Rooted id f u)
              (f.actor == f.content.author && is_empty f.content.parents)
              "invalid native root/author" g
              (λ own. (
                λ same.
                    (ground arith, ground (arith, eq_iff f.actor f.content.author), ground arith),
                λ other. absurd (other ((eq_iff f.content.root_id id).0 e)),
              ))))
    | inr e ↦ rw e (
        require-Leaves s t (λ done u. Rooted id f u) (author_operation f.operation)
          "native creation/reply cannot revise another root"
          (get f.content.root_id >>= λ root.
            require
              (root.content.root_id == f.content.root_id
                && root.content.author == f.content.author
                && not (is_empty f.content.parents)
                && same_family root.operation f.operation)
              "invalid native root lineage")
          g
          (λ edits.
            Leaves-map s t (λ done u. Edits u f) (λ done u. Rooted id f u)
              ((get f.content.root_id >>= λ root.
                  require
                    (root.content.root_id == f.content.root_id
                      && root.content.author == f.content.author
                      && not (is_empty f.content.parents)
                      && same_family root.operation f.operation)
                    "invalid native root lineage")
                t)
              (check_root-Edits id f t g edits)
              (λ done u x held.
                (λ same. absurd (ground (arith, eq_iff f.content.root_id id)), λ other. held))))
  ]
