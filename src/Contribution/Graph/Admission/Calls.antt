-- ===== src/Contribution/Graph/Admission/Calls.antt =====
-- internal/contribution/model.go: one call of `admit`.
use mathlib.Core.Path.{subst}
use hubnot.Prelude.{
  ℕ, zero, suc, ◌+◌, ◌≤◌, ◌<◌, ◌≡◌, ◌≢◌, ◌↔◌, refl, sym, Bool, true, false, ◌&&◌, ◌||◌, String,
  arith, eqb, ◌==◌, eq_iff, eq_refl, if◌then◌else◌, Bool-cases, inl, inr, int_lt, pos, negsuc, ℤ,
}
use hubnot.Prelude.Strings.{mem}
use hubnot.Prelude.Maps.{insert, lookup-insert}
use hubnot.Contribution.Records.{dependency_ids}
use hubnot.Contribution.Graph.Facts.{NativeFact, depth_of}
use hubnot.Contribution.Graph.Grounds.{Has}
use hubnot.Contribution.Graph.Admission.{
  Grounds, Admission, state_of, admit, admit_each, admit_fuel, weigh, close_admission,
}
use hubnot.Contribution.Graph.Admission.Each.{Each, admit_each-exact, int_lt-le}
use hubnot.Contribution.Graph.Admission.Eligible.{
  Eligible, eligible, Ranked, Right, Moves, Moves-refl, Settled, Above, Settles,
}

-- What an eligible revision is known to have, by its fact.
Eligible-parts :
    (g : Grounds) {id : String} (f : NativeFact)
    → Has g.known id f
    → Eligible g id
    → (g.blocked f.actor ≡ false)
      × (g.blocked f.content.author ≡ false)
      × ((dep : String) → mem dep (dependency_ids f.content) ≡ true → Eligible g dep)
Eligible-parts g f has (eligible f' has' c b b' deps) =
    let same : f' ≡ f = ground (arith, has, has') in
    (rw (← same) b, rw (← same) b', rw (← same) deps)

refuted : (g : Grounds) (id : String) → mem id g.candidate_ids ≡ false → Eligible g id → ⊥
refuted g id other (eligible f has c b b' deps) = ground arith

-- A call that goes on is not at the limit yet.
further : (limit : ℤ) (depth : ℕ) → int_lt limit depth ≡ false → suc depth < admit_fuel limit
further (pos n) depth e = ground arith
further (negsuc n) depth e = ground arith

module _ (g : Grounds) (ranked : Ranked g) where
  module _ (fuel depth : ℕ) (settles : Settles g (suc depth) (admit fuel g (suc depth)))
      (id : String) (a : Admission) (f : NativeFact) (has : Has g.known id f)
      (within : int_lt g.limit (depth + depth_of id g.known) ≡ false) (sure : Right g a)
      (above : Above g id a) (fresh : state_of id a ≢ 2) where
    abbrev opened : Admission
    opened = record a { state = insert id 1 a.state }

    state_opened : (k : String) → state_of k opened ≡ (if id == k then 1 else state_of k a)
    state_opened k = ground (arith, lookup-insert id k 1 a.state)

    opened-Right : Right g opened
    opened-Right = record {
      done = λ k e. sure.done k (ground (arith, state_opened k));
      only = λ k m. ground (arith, state_opened k, sure.only k m, eq_iff id k, fresh);
    }

    -- What `weigh` returns and leaves.
    record Weighed (run : Bool × Admission) : Type 0 where
      right : Right g run.1
      moves : Moves g opened run.1
      exact : (run.0 ≡ true) ↔ (
          (g.blocked f.actor ≡ false)
          × (g.blocked f.content.author ≡ false)
          × ((dep : String) → mem dep (dependency_ids f.content) ≡ true → Eligible g dep))

    weigh-Weighed : Weighed (weigh (admit fuel g (suc depth)) g id opened)
    unfolding weigh
    weigh-Weighed = elim (Bool-cases (g.blocked f.actor || g.blocked f.content.author)) [
      | inl bad ↦
          rw (has, bad, weigh)
            (record {
              right = opened-Right;
              moves = Moves-refl g;
              exact = (λ e. absurd cc, λ h. ground (arith, h.0, h.1));
            })
      | inr good ↦
          let n = depth_of id g.known in
          let each : Each g ranked true (dependency_ids f.content) opened
              (admit_each (admit fuel g (suc depth)) true (dependency_ids f.content) opened) =
            admit_each-exact g ranked (suc depth) (admit fuel g (suc depth)) settles n true
              (dependency_ids f.content) opened
              (λ d lt.
                int_lt-le g ranked g.limit (suc depth + d) (depth + n) within (omega (arith, lt)))
              (ranked id f has).1 opened-Right
              (λ k e. elim (Bool-cases (id == k)) [
                | inl same ↦ rw ((eq_iff id k).0 same) (omega arith)
                | inr other ↦ omega (arith, above k (ground (arith, state_opened k, e)))
              ]) in
          rw (has, good, weigh)
            (record {
              right = each.right;
              moves = each.moves;
              exact = (
                λ e. (ground arith, ground arith, (each.exact.0 e).1),
                λ h. each.exact.1 (refl, h.2),
              );
            })
    ]

    module _ (candidate : mem id g.candidate_ids ≡ true) where
      close_admission-Settled :
          (run : Bool × Admission) → Weighed run → Settled g id a (close_admission id run)
      unfolding close_admission
      close_admission-Settled (allowed, b) w =
          let closed : Admission = (close_admission id (allowed, b)).1 in
          let state_closed : (k : String)
              → state_of k closed ≡ (if id == k then 2 else state_of k b) =
            λ k. ground (arith, lookup-insert id k 2 b.state) in
          let exact : (allowed ≡ true) ↔ Eligible g id = (
            λ e. let h = w.exact.0 e in eligible f has candidate h.0 h.1 h.2,
            λ e. w.exact.1 (Eligible-parts g f has e),
          ) in
          let mem_closed : (k : String)
              → mem k closed.admitted ≡ ((allowed && id == k) || mem k b.admitted) =
            λ k. elim (Bool-cases allowed) [
              | inl holds ↦ unfold mem in ground (arith, holds)
              | inr fails ↦ ground (arith, fails)
            ] in
          record {
            right = record {
              done = λ k e. elim (Bool-cases (id == k)) [
                | inl same ↦ (
                  λ m. subst (Eligible g) ((eq_iff id k).0 same) (elim (Bool-cases allowed) [
                    | inl holds ↦ exact.0 holds
                    | inr fails ↦
                        let held : mem id b.admitted ≡ true =
                          ground (arith, mem_closed k, eq_iff id k) in
                        (w.right.done id (w.right.only id held)).0 held
                  ]),
                  λ el.
                      let holds = exact.1 (subst (Eligible g) (sym ((eq_iff id k).0 same)) el) in
                      ground (arith, mem_closed k),
                )
                | inr other ↦
                    let before : state_of k b ≡ 2 = ground (arith, state_closed k, e) in
                    (
                      λ m. (w.right.done k before).0 (ground (arith, mem_closed k)),
                      λ el. let m = (w.right.done k before).1 el in ground (arith, mem_closed k),
                    )
              ];
              only = λ k m. ground (arith, state_closed k, mem_closed k, w.right.only k);
            };
            moves = record {
              clears = λ k e.
                  let before : state_of k b ≡ 1 = ground (arith, state_closed k, e) in
                  ground (arith, state_closed k, state_opened k, w.moves.clears k before);
              grows = λ k m. ground (arith, mem_closed k, w.moves.grows k m);
            };
            exact = exact;
            kept = λ e. ground (arith, mem_closed id, eq_refl id, e);
          }

  -- `admit` with enough fuel answers whether the revision is eligible.
  pub admit-Settled :
      (fuel depth : ℕ)
      → admit_fuel g.limit ≤ fuel + depth
      → depth < admit_fuel g.limit
      → Settles g depth (admit fuel g depth)
  unfolding admit
  admit-Settled zero depth enough below id a f has within right above =
      absurd (omega (arith, enough, below))
  admit-Settled (suc fuel) depth enough below id a f has within right above =
      elim (Bool-cases (eqb (state_of id a) 2)) [
        | inl done ↦
            rw (done, admit)
              (record {
                right = right;
                moves = Moves-refl g;
                exact = right.done id (ground (arith, done));
                kept = λ e. e;
              })
        | inr new ↦
            let idle : eqb (state_of id a) 1 ≡ false = elim (Bool-cases (eqb (state_of id a) 1)) [
              | inl busy ↦ absurd (omega (arith, above id (ground (arith, busy))))
              | inr free ↦ free
            ] in
            let reach : int_lt g.limit depth ≡ false =
              int_lt-le g ranked g.limit depth (depth + depth_of id g.known) within (omega arith) in
            elim (Bool-cases (mem id g.candidate_ids)) [
              | inl candidate ↦
                  let settles =
                    admit-Settled fuel (suc depth) (omega (arith, enough))
                      (further g.limit depth reach) in
                  rw (new, idle, reach, candidate, admit)
                    (close_admission-Settled fuel depth settles id a f has within right above
                      (λ e. ground (arith, e)) candidate
                      (weigh (admit fuel g (suc depth)) g id
                        (record a { state = insert id 1 a.state }))
                      (weigh-Weighed fuel depth settles id a f has within right above
                        (λ e. ground (arith, e))))
              | inr other ↦
                  rw (new, idle, reach, other, admit)
                    (record {
                      right = right;
                      moves = Moves-refl g;
                      exact = (λ e. absurd cc, λ e. absurd (refuted g id other e));
                      kept = λ e. absurd cc;
                    })
            ]
      ]
