-- ===== src/Contribution/Graph/Admission/Exact.antt =====
-- internal/contribution/model.go: which revisions `Reduce` admits.
use mathlib.Core.Path.{subst}
use hubnot.Prelude.{
  ℕ, zero, suc, ◌<◌, ◌≡◌, ◌≢◌, ◌↔◌, sym, true, false, not, ◌||◌, String, List, [], ◌∷◌, none, arith,
  eqb, ◌==◌, eq_iff, if◌then◌else◌, Bool-cases, Option-cases, inl, inr, int_lt, pos, negsuc, ℤ,
}
use hubnot.Prelude.Strings.{mem}
use hubnot.Prelude.Maps.{lookup, insert, lookup-insert}
use hubnot.Contribution.Graph.Admission.{
  Grounds, Admission, state_of, admit, admit_fuel, weigh, close_admission, admit_all,
  nothing_admitted,
}
use hubnot.Contribution.Graph.Admission.Eligible.{
  Eligible, Eligible-Has, Eligible-candidate, Ranked, Right, Moves-refl, Settled,
}
use hubnot.Contribution.Graph.Admission.Calls.{admit-Settled}

admit_fuel-positive : (limit : ℤ) → 0 < admit_fuel limit
admit_fuel-positive (pos n) = omega arith
admit_fuel-positive (negsuc n) = omega arith

module _ (g : Grounds) (ranked : Ranked g) where
  -- Between two calls nothing is under visit.
  abbrev Calm : Admission → Type 0
  Calm a = (k : String) → state_of k a ≢ 1

  module _ (id : String) (a : Admission) (absent : lookup id g.known.facts ≡ none)
      (right : Right g a) where
    not-Eligible : Eligible g id → ⊥
    not-Eligible e = let (f, h) = Eligible-Has g e in ground (arith, absent, h)

    unmoved : Settled g id a (false, a)
    unmoved = record {
      right = right;
      moves = Moves-refl g;
      exact = (λ e. absurd cc, λ e. absurd (not-Eligible e));
      kept = λ e. absurd cc;
    }

    abbrev dismissed : Admission
    dismissed = record { state = insert id 2 (insert id 1 a.state); admitted = a.admitted }

    state_dismissed : (k : String) → state_of k dismissed ≡ (if id == k then 2 else state_of k a)
    state_dismissed k =
        ground (arith, lookup-insert id k 2 (insert id 1 a.state), lookup-insert id k 1 a.state)

    dismissed-Settled : state_of id a ≢ 2 → Settled g id a (false, dismissed)
    dismissed-Settled new = record {
      right = record {
        done = λ k e. elim (Bool-cases (id == k)) [
          | inl same ↦ (
            λ m. absurd (new (right.only id (ground (arith, m, eq_iff id k)))),
            λ el. absurd (not-Eligible (subst (Eligible g) (sym ((eq_iff id k).0 same)) el)),
          )
          | inr other ↦ right.done k (ground (arith, state_dismissed k, e))
        ];
        only = λ k m. ground (arith, state_dismissed k, right.only k m);
      };
      moves = record { clears = λ k e. ground (arith, state_dismissed k, e); grows = λ k m. m };
      exact = (λ e. absurd cc, λ e. absurd (not-Eligible e));
      kept = λ e. absurd cc;
    }

    -- An ID without a fact is not admitted.
    admit-unknown : (fuel : ℕ) → Settled g id a (admit fuel g 0 id a)
    unfolding admit weigh close_admission
    admit-unknown zero = unmoved
    admit-unknown (suc fuel) = elim (Bool-cases (eqb (state_of id a) 2)) [
      | inl done ↦
          rw (done, admit)
            (record {
              right = right;
              moves = Moves-refl g;
              exact = right.done id (ground (arith, done));
              kept = λ e. e;
            })
      | inr new ↦
          elim (Bool-cases
            (eqb (state_of id a) 1 || int_lt g.limit 0 || not (mem id g.candidate_ids))) [
              | inl stop ↦ rw (new, stop, admit) unmoved
              | inr go ↦
                  rw (new, go, admit, weigh, absent) (dismissed-Settled (λ e. ground (arith, e)))
            ]
    ]

  admit-any :
      (id : String) (a : Admission)
      → Right g a
      → Calm a
      → Settled g id a (admit (admit_fuel g.limit) g 0 id a)
  admit-any id a right calm = elim (Option-cases (lookup id g.known.facts)) [
    | inl e ↦ admit-unknown id a e right (admit_fuel g.limit)
    | inr (f, e) ↦
        admit-Settled g ranked (admit_fuel g.limit) 0 (omega arith) (admit_fuel-positive g.limit) id
          a f e (ground (arith, (ranked id f e).0)) right (λ k x. absurd (calm k x))
  ]

  -- What the loop over the candidates leaves.
  record Finished (ids : List String) (a b : Admission) : Type 0 where
    right : Right g b
    grows : (id : String) → mem id a.admitted ≡ true → mem id b.admitted ≡ true
    complete : (id : String) → mem id ids ≡ true → Eligible g id → mem id b.admitted ≡ true

  admit_all-Finished :
      (ids : List String) (a : Admission) → Right g a → Calm a → Finished ids a (admit_all g ids a)
  unfolding admit_all mem
  admit_all-Finished [] a right calm = record {
    right = right;
    grows = λ id m. m;
    complete = λ id m. absurd cc;
  }
  admit_all-Finished (id ∷ ids) a right calm =
      let one = admit-any id a right calm in
      let next = (admit (admit_fuel g.limit) g 0 id a).1 in
      let rest = admit_all-Finished ids next one.right (λ k e. calm k (one.moves.clears k e)) in
      record {
        right = rest.right;
        grows = λ k m. rest.grows k (one.moves.grows k m);
        complete = λ k m e. elim (Bool-cases (id == k)) [
          | inl same ↦
              let own = subst (Eligible g) (sym ((eq_iff id k).0 same)) e in
              subst (λ i. mem i (admit_all g ids next).admitted ≡ true) ((eq_iff id k).0 same)
                (rest.grows id (one.kept (one.exact.1 own)))
          | inr other ↦ rest.complete k (ground (arith, m)) e
        ];
      }

  -- The loop over all candidates admits exactly what is eligible.
  pub admit_all-exact :
      (ids : List String)
      → ((id : String) → mem id g.candidate_ids ≡ true → mem id ids ≡ true)
      → (id : String) → (mem id (admit_all g ids nothing_admitted).admitted ≡ true) ↔ Eligible g id
  admit_all-exact ids covers id =
      let end =
        admit_all-Finished ids nothing_admitted
          (record {
            done = λ k e. absurd (unfold lookup in ground (arith, e));
            only = λ k m. absurd (unfold mem in ground (arith, m));
          })
          (λ k e. unfold lookup in ground (arith, e)) in
      (
        λ m. (end.right.done id (end.right.only id m)).0 m,
        λ e. end.complete id (covers id (Eligible-candidate g e)) e,
      )
