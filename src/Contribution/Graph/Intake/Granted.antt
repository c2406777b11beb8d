-- ===== src/Contribution/Graph/Intake/Granted.antt =====
-- internal/contribution/model.go: when `IntakeEvidence` grants an intake.
use hubnot.Prelude.{
  ◌≤◌, ◌≡◌, refl, sym, ap, ◌∙◌, if◌then◌else◌, true, false, String, List, [], ◌∷◌, some, ok, arith,
  Bool-cases, inl, inr, ◌==◌, eq_iff, length, is_empty, All, All-split,
}
use mathlib.Core.Path.{subst}
use hubnot.Prelude.Strings.{mem, length-le-of_distinct}
use hubnot.Prelude.Maps.{slices}
use hubnot.Prelude.Sort.{sort_strings, mem-sort_strings}
use hubnot.Contribution.Records.{Reference, Verified, Submission}
use hubnot.Contribution.Graph.View.{View}
use hubnot.Contribution.Graph.Intake.{
  add_heads, require_exact, require_each, require_root, view_root, require_parents,
  require_reference, require_references, intake_evidence,
}
use hubnot.Contribution.Graph.Intake.Cited.{
  Open, Took-append, require_parents-Took, parents_need, reference_needs, references_need,
}
use hubnot.Contribution.Graph.Intake.Cleared.{
  Cleared, actors_cut, cited-exact, require_references-Took,
}

module _ (view : View) where
  -- The root has admitted heads.
  abbrev pub Headed : String → Type 0
  Headed root = is_empty (slices root view.heads) ≡ false

  require_exact-runs :
      (id : String) (cut : List String)
      → Open view id
      → require_exact view id cut ≡ ok (add_heads view (record { kind = "revision"; id = id }) cut)
  unfolding require_exact
  require_exact-runs id cut (admitted, visible) = ground (arith, admitted, visible)

  require_each-runs :
      (ids cut : List String)
      → All (Open view) ids
      → (after : List String) × (require_each view ids cut ≡ ok after)
  unfolding require_each
  require_each-runs [] cut h = (cut, refl)
  require_each-runs (id ∷ ids) cut h =
      rw (require_exact-runs id cut h.0) (require_each-runs ids _ h.1)

  require_root-runs :
      (root : String) (cut : List String)
      → Headed root
      → All (Open view) (slices root view.heads)
      → (after : List String) × (require_root view root cut ≡ ok after)
  unfolding require_root
  require_root-runs root cut full h = rw full (require_each-runs (slices root view.heads) cut h)

  require_parents-runs :
      (parents cut : List String)
      → All (λ parent. Headed (view_root view parent)) parents
      → All (Open view) (parents_need view parents)
      → (after : List String) × (require_parents view parents cut ≡ ok after)
  unfolding require_parents
  require_parents-runs [] cut full h = (cut, refl)
  require_parents-runs (parent ∷ parents) cut full h =
      let (one, rest) =
        All-split (Open view) (slices (view_root view parent) view.heads)
          (parents_need view parents) h.1 in
      let (whole, two) =
        require_root-runs (view_root view parent)
          (add_heads view (record { kind = "revision"; id = parent }) cut) full.0 one in
      rw (require_exact-runs parent cut h.0)
        (rw two (require_parents-runs parents whole full.1 rest))

  require_reference-runs :
      (r : Reference) (cut : List String)
      → mem r.id view.admitted ≡ true
      → ((r.kind == "root") ≡ true → Headed r.id)
      → All (Open view) (reference_needs view r)
      → (after : List String) × (require_reference view r cut ≡ ok after)
  unfolding require_reference
  require_reference-runs r cut there full h = elim (Bool-cases (r.kind == "root")) [
    | inl root ↦
        let (after, run) = require_root-runs r.id cut (full root) (
          subst (All (Open view)) (ap (λ b. if b then slices r.id view.heads else r.id ∷ []) root)
            h) in
        (after, ground (arith, there, root, run))
    | inr revision ↦
        let (shown, _) =
          subst (All (Open view))
            (ap (λ b. if b then slices r.id view.heads else r.id ∷ []) revision) h in
        let run = require_exact-runs r.id cut shown in
        (
          add_heads view (record { kind = "revision"; id = r.id }) cut,
          ground (arith, there, revision, run),
        )
  ]

  require_references-runs :
      (refs : List Reference) (cut : List String)
      → All (λ r. mem r.id view.admitted ≡ true) refs
      → All (λ r. (r.kind == "root") ≡ true → Headed r.id) refs
      → All (Open view) (references_need view refs)
      → (after : List String) × (require_references view refs cut ≡ ok after)
  unfolding require_references
  require_references-runs [] cut there full h = (cut, refl)
  require_references-runs (r ∷ refs) cut there full h =
      let (one, rest) =
        All-split (Open view) (reference_needs view r) (references_need view refs) h in
      let (after, two) = require_reference-runs r cut there.0 full.0 one in
      rw two (require_references-runs refs after there.1 full.1 rest)

  -- The converse of `intake_evidence-Cleared`: a named submission that meets the conditions of
  -- `Cleared` for some list of evidence, whose parents' roots and referenced roots have heads in the
  -- view, is granted, and the evidence returned has exactly the members of that list.
  pub intake_evidence-grants :
      (v : Verified) (s : Submission) (cut : List String)
      → (v.id == "") ≡ false
      → v.entry.submitted ≡ some s
      → Cleared view v s cut
      → All (λ parent. Headed (view_root view parent)) s.content.parents
      → All (λ r. (r.kind == "root") ≡ true → Headed r.id) s.content.references
      → (found : List String) × (intake_evidence view v ≡ ok found)
        × ((x : String) → mem x found ≡ mem x cut)
  unfolding intake_evidence
  intake_evidence-grants v s cut named submits clear rooted headed =
      let (parents, references) =
        All-split (Open view) (parents_need view s.content.parents)
          (references_need view s.content.references) clear.opened in
      let (followed, one) =
        require_parents-runs s.content.parents (actors_cut view v s) rooted parents in
      let (cited, two) =
        require_references-runs s.content.references followed clear.referred headed references in
      let all =
        Took-append view (require_parents-Took view s.content.parents (actors_cut view v s) one)
          (require_references-Took view s.content.references followed two).1 in
      let (single, exact) = cited-exact view v s all in
      let same : (x : String) → mem x cited ≡ mem x cut = λ x. exact x ∙ sym (clear.complete x) in
      let few : length cited ≤ 64 =
        omega (
          arith,
          clear.bounded,
          length-le-of_distinct cited cut single (λ x m. sym (same x) ∙ m),
        ) in
      (
        sort_strings cited,
        ground (
          arith,
          named,
          submits,
          clear.scoped,
          clear.free,
          eq_iff v.entry.project view.project,
          one,
          two,
          few,
        ),
        λ x. mem-sort_strings x cited ∙ same x,
      )
