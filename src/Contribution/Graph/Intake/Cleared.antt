-- ===== src/Contribution/Graph/Intake/Cleared.antt =====
-- internal/contribution/model.go: what `IntakeEvidence` demands.
use hubnot.Prelude.{
  ◌≤◌, ◌≡◌, refl, ◌∙◌, true, false, ◌||◌, String, List, [], ◌∷◌, ◌++◌, some, Result, ok, arith,
  Bool-cases, Option-cases, inl, inr, ◌==◌, eq_iff, has, length, All, >>=-eq-ok, ok-injective, ltb,
  ◌>>=◌, ◌>>◌, ap, refuse, errorf,
}
use mathlib.Core.Path.{subst}
use hubnot.Prelude.Strings.{str_ltb, mem, distinct}
use hubnot.Prelude.Sort.{sort_strings, mem-sort_strings, distinct-sort_strings, length-sort_by}
use hubnot.Contribution.Checks.{max_links}
use hubnot.Contribution.Records.{Reference, Content, Verified, Submission}
use hubnot.Contribution.Graph.View.{View}
use hubnot.Contribution.Graph.Intake.{
  add_ids, add_heads, require_parents, require_reference, require_references, intake_evidence,
}
use hubnot.Contribution.Graph.Intake.Cited.{
  Open, Took, Took-nil, Took-append, require_exact-Took, require_root-Took, require_parents-Took,
  parents_need, reference_needs, references_need, revision_heads, actor_heads, mem-add_ids,
  distinct-add_ids,
}

module _ (view : View) where
  require_reference-Took :
      (r : Reference) (cut : List String) {after : List String}
      → require_reference view r cut ≡ ok after
      → (mem r.id view.admitted ≡ true) × Took view (reference_needs view r) cut after
  unfolding require_reference
  require_reference-Took r cut run = elim (Bool-cases (mem r.id view.admitted)) [
    | inr not_there ↦ absurd (ground (arith, run, not_there))
    | inl there ↦ elim (Bool-cases (r.kind == "root")) [
      | inl root ↦
          (there, rw root (require_root-Took view r.id cut (ground (arith, run, there, root))).1)
      | inr revision ↦ (
        there,
        rw revision (require_exact-Took view r.id cut (ground (arith, run, there, revision))),
      )
    ]
  ]

  pub require_references-Took :
      (refs : List Reference) (cut : List String) {after : List String}
      → require_references view refs cut ≡ ok after
      → All (λ r. mem r.id view.admitted ≡ true) refs
        × Took view (references_need view refs) cut after
  unfolding require_references
  require_references-Took [] cut run =
      (tt, subst (Took view [] cut) (ok-injective run) (Took-nil view cut))
  require_references-Took (r ∷ refs) cut run =
      let (mid, one, rest) =
        >>=-eq-ok (require_reference view r cut) (require_references view refs) run in
      let first = require_reference-Took r cut one in
      let others = require_references-Took refs mid rest in
      ((first.0, others.0), Took-append view first.1 others.1)

  -- All revisions that the intake of a content rests on.
  abbrev pub needs : Content → List String
  needs c = parents_need view c.parents ++ references_need view c.references

  -- What an accepted intake of a submission has, with the evidence for it.
  pub record Cleared (v : Verified) (s : Submission) (cut : List String) : Type 0 where
    pub scoped : v.entry.project ≡ view.project
    pub free :
        (mem v.entry.actor view.blocked ≡ false) × (mem s.content.author view.blocked ≡ false)
    pub referred : All (λ r. mem r.id view.admitted ≡ true) s.content.references
    pub opened : All (Open view) (needs s.content)
    pub complete :
        (x : String)
        → mem x cut
          ≡ has (λ id. mem x (revision_heads view id)) (needs s.content)
            || (mem x (actor_heads view s.content.author) || mem x (actor_heads view v.entry.actor))
    pub once : distinct cut ≡ true
    pub bounded : length cut ≤ 64

  abbrev pub actors_cut : Verified → Submission → List String
  actors_cut v s =
      add_heads view (record { kind = "actor"; id = s.content.author })
        (add_heads view (record { kind = "actor"; id = v.entry.actor }) [])

  -- The rest of `IntakeEvidence`, once the actors are known to be free.
  abbrev cite : Verified → Submission → Result (List String)
  cite v s = require_parents view s.content.parents (actors_cut v s) >>= λ followed.
      require_references view s.content.references followed >>= λ cited.
      refuse (ltb max_links (length cited))
        (errorf "evaluated moderation evidence limit exceeded" [])
      >> ok (sort_strings cited)

  start_cut :
      (v : Verified) (s : Submission) (x : String)
      → mem x (actors_cut v s)
        ≡ mem x (actor_heads view s.content.author) || mem x (actor_heads view v.entry.actor)
  unfolding add_heads mem
  start_cut v s x = ground (
    arith,
    mem-add_ids x (actor_heads view s.content.author) (add_ids (actor_heads view v.entry.actor) []),
    mem-add_ids x (actor_heads view v.entry.actor) [],
    Bool-cases (mem x (actor_heads view v.entry.actor)),
    Bool-cases (mem x (actor_heads view s.content.author)),
  )

  start_once : (v : Verified) (s : Submission) → distinct (actors_cut v s) ≡ true
  unfolding add_heads distinct
  start_once v s =
      distinct-add_ids (actor_heads view s.content.author)
        (add_ids (actor_heads view v.entry.actor) [])
        (distinct-add_ids (actor_heads view v.entry.actor) [] refl)

  -- The cut after all requirements is distinct, and has exactly the decisions that they cite.
  pub cited-exact :
      (v : Verified) (s : Submission) {cited : List String}
      → Took view (needs s.content) (actors_cut v s) cited
      → (distinct cited ≡ true)
        × ((x : String)
            → mem x cited
              ≡ has (λ id. mem x (revision_heads view id)) (needs s.content)
                || (mem x (actor_heads view s.content.author)
                    || mem x (actor_heads view v.entry.actor)))
  cited-exact v s all = (
    all.once (start_once v s),
    λ x.
        all.adds x
        ∙ ap (λ b. has (λ id. mem x (revision_heads view id)) (needs s.content) || b)
            (start_cut v s x),
  )

  cite-Cleared :
      (v : Verified) (s : Submission) {cut : List String}
      → v.entry.project ≡ view.project
      → (mem v.entry.actor view.blocked ≡ false) × (mem s.content.author view.blocked ≡ false)
      → cite v s ≡ ok cut
      → Cleared v s cut
  cite-Cleared v s {cut} scope free run =
      let (followed, one, run1) =
        >>=-eq-ok (require_parents view s.content.parents (actors_cut v s)) _ run in
      let (cited, two, run2) =
        >>=-eq-ok (require_references view s.content.references followed) _ run1 in
      let parents = require_parents-Took view s.content.parents (actors_cut v s) one in
      let (referred, refs) = require_references-Took s.content.references followed two in
      let all = Took-append view parents refs in
      let (single, exact) = cited-exact v s all in
      let small : length cited ≤ 64 = ground (arith, run2) in
      let same : sort_strings cited ≡ cut = ground (arith, run2) in
      subst (Cleared v s) same (record {
        scoped = scope;
        free = free;
        referred = referred;
        opened = all.allowed;
        complete = λ x. mem-sort_strings x cited ∙ exact x;
        once = distinct-sort_strings cited single;
        bounded = unfold sort_strings in omega (arith, length-sort_by str_ltb cited, small);
      })

  -- An intake that `IntakeEvidence` clears: the submission is of the project of the view, its signer
  -- and author are not blocked, its references name admitted revisions, and every parent, every
  -- referenced revision and every head of the root of a parent or of a referenced root is admitted
  -- and visible. The evidence is exactly the decision heads on these revisions and on the two actors,
  -- without a repetition and at most 64.
  pub intake_evidence-Cleared :
      (v : Verified) (cut : List String)
      → intake_evidence view v ≡ ok cut
      → (s : Submission) × (v.entry.submitted ≡ some s) × Cleared v s cut
  unfolding intake_evidence
  intake_evidence-Cleared v cut run = elim (Option-cases v.entry.submitted) [
    | inl e ↦ absurd (ground (arith, run, e))
    | inr (s, e) ↦
        let scope : v.entry.project ≡ view.project =
          ground (arith, run, e, eq_iff v.entry.project view.project) in
        let free : (mem v.entry.actor view.blocked ≡ false)
            × (mem s.content.author view.blocked ≡ false) =
          ground (arith, run, e) in
        (s, e, cite-Cleared v s scope free (ground (arith, run, e)))
  ]
