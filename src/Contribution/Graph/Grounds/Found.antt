-- ===== src/Contribution/Graph/Grounds/Found.antt =====
-- internal/contribution/model.go: what `getFact` leaves in its memory.
use mathlib.Core.Path.{subst}
use hubnot.Prelude.{
  ℕ, zero, suc, ◌+◌, ◌≤◌, ◌<◌, ◌≡◌, ◌≢◌, refl, sym, ◌∙◌, false, ◌||◌, String, ◌∷◌, none, Result, ok,
  err, Error, out_of_fuel, arith, ◌==◌, eq_iff, eq_refl, Bool-cases, Option-cases, inl, inr, int_lt,
  ℤ, pos, negsuc,
}
use hubnot.Prelude.Strings.{mem, remove}
use hubnot.Prelude.Maps.{lookup, insert, lookup-insert}
use hubnot.Contribution.Quota.{Limits}
use hubnot.Contribution.Graph.Facts.{
  NativeFact, FactTable, Sources, depth_of, over_budget, examine, settle, get_fact, fact_fuel,
  no_facts,
}
use hubnot.Contribution.Graph.Grounds.{Has, Good, Grows, Grounded, Grounded-grows}
use hubnot.Contribution.Graph.Grounds.Runs.{Extends, Extends-refl, Leaves}
use hubnot.Contribution.Graph.Grounds.Loops.{Finds}
use hubnot.Contribution.Graph.Grounds.Examined.{examine-Grounded}

Grounded-same :
    (s : Sources) (t : FactTable) {id id' : String} {f f' : NativeFact} {depth depth' : ℕ}
    → id ≡ id'
    → f ≡ f'
    → depth ≡ depth'
    → Grounded s t id f depth
    → Grounded s t id' f' depth'
Grounded-same s t {id} {id'} {f} {f'} {depth} a b c h =
    subst (λ d. Grounded s t id' f' d) c
      (subst (λ g. Grounded s t id' g depth) b (subst (λ i. Grounded s t i f depth) a h))

module _ (s : Sources) (id : String) (t : FactTable) where
  -- The table while `id` is looked for, and the tables after it.
  abbrev opened : FactTable
  opened = record t { visiting = id ∷ t.visiting }

  abbrev stored : NativeFact → ℕ → FactTable → FactTable
  stored f depth u = record u {
    facts = insert id f u.facts;
    depths = insert id depth u.depths;
    visiting = remove id u.visiting;
  }

  abbrev failed : Error → FactTable → FactTable
  failed e u = record u { errors = insert id e u.errors; visiting = remove id u.visiting }

  opened-Good : Good s t → Good s opened
  opened-Good g = record {
    grounded = λ k f h.
        Grounded-grows (record { keeps = λ k f h. h; depths = λ k f h. refl }) s k f (depth_of k t)
          (g.grounded k f h);
    reasons = g.reasons;
  }

  closes : (u : FactTable) → u.visiting ≡ id ∷ t.visiting → remove id u.visiting ≡ t.visiting
  unfolding remove
  closes u e = rw (e, remove, eq_refl id)

  module _ (absent : lookup id t.facts ≡ none) (idle : mem id t.visiting ≡ false) where
    absent_still : (u : FactTable) → Extends opened u → lookup id u.facts ≡ none
    unfolding mem
    absent_still u x = x.open_ids id (ground (arith, eq_refl id)) absent

    not_other :
        (u : FactTable) (k : String) (g : NativeFact)
        → Extends opened u
        → Has u k g
        → (id == k) ≡ false
    not_other u k g x h = elim (Bool-cases (id == k)) [
      | inl same ↦ absurd (
          let e = absent_still u x in
          let e' = subst (λ i. lookup i u.facts ≡ none) ((eq_iff id k).0 same) e in cc)
      | inr other ↦ other
    ]

    Grows-stored :
        (f : NativeFact) (depth : ℕ) (u : FactTable) → Extends opened u → Grows u (stored f depth u)
    Grows-stored f depth u x = record {
      keeps = λ k g h. ground (arith, lookup-insert id k f u.facts, not_other u k g x h);
      depths = λ k g h. ground (arith, lookup-insert id k depth u.depths, not_other u k g x h);
    }

    frame :
        (u v : FactTable)
        → Extends opened u
        → Grows u v
        → v.visiting ≡ remove id u.visiting
        → ((k : String) → (id == k) ≡ false → lookup k v.facts ≡ lookup k u.facts)
        → Extends t v
    unfolding mem
    frame u v x g calls same = record {
      grows = record {
        keeps = λ k f h. g.keeps k f (x.grows.keeps k f h);
        depths = λ k f h. g.depths k f (x.grows.keeps k f h) ∙ x.grows.depths k f h;
      };
      calls = calls ∙ closes u x.calls;
      open_ids = λ k m e. same k (ground (arith, eq_iff id k)) ∙ x.open_ids k (ground (arith, m)) e;
    }

    settle-Leaves :
        (run : Result (NativeFact × ℕ) × FactTable)
        → Leaves s opened (λ found u. Grounded s u id found.0 found.1) run
        → Leaves s t (λ f u. Has u id f) (settle id run)
    unfolding settle
    settle-Leaves (ok (f, depth), u) (x, g, h) =
        let grows = Grows-stored f depth u x in
        (
          frame u (stored f depth u) x grows refl
              (λ k other. ground (arith, lookup-insert id k f u.facts)),
          record {
            grounded = λ k found e. elim (Bool-cases (id == k)) [
              | inl same ↦
                  Grounded-same s (stored f depth u) ((eq_iff id k).0 same)
                    (ground (arith, lookup-insert id k f u.facts))
                    (ground (arith, lookup-insert id k depth u.depths))
                    (Grounded-grows grows s id f depth h)
              | inr other ↦
                  let had : Has u k found = ground (arith, lookup-insert id k f u.facts) in
                  Grounded-same s (stored f depth u) {id = k} {f = found} refl refl
                    (sym (grows.depths k found had))
                    (Grounded-grows grows s k found (depth_of k u) (g.grounded k found had))
            ];
            reasons = g.reasons;
          },
          ground (arith, lookup-insert id id f u.facts, eq_refl id),
        )
    settle-Leaves (err e, u) (x, g, n) = (
      frame u (failed e u) x (record { keeps = λ k f h. h; depths = λ k f h. refl }) refl
          (λ k other. refl),
      record {
        grounded = λ k f h.
            Grounded-grows (record { keeps = λ k f h. h; depths = λ k f h. refl }) s k f
              (depth_of k u) (g.grounded k f h);
        reasons = λ k c h. ground (arith, lookup-insert id k e u.errors, g.reasons k c);
      },
      n,
    )

-- A call that goes on is not at the limit yet.
deeper :
    (limits : Limits) (depth : ℕ) → int_lt limits.depth depth ≡ false → suc depth < fact_fuel limits
deeper limits depth e = go limits.depth e
  where
    go :
        (limit : ℤ)
        → int_lt limit depth ≡ false
        → suc depth < (elim limit [ pos n ↦ suc (suc n) | negsuc n ↦ 2 ])
    go (pos n) e = ground arith
    go (negsuc n) e = ground arith

module _ (s : Sources) (answers : (id : String) → s.native id ≢ err out_of_fuel) where
  -- `getFact` with enough fuel finds a grounded fact, or reports an error of the source.
  pub get_fact-Leaves :
      (fuel depth : ℕ)
      → fact_fuel s.limits ≤ fuel + depth
      → depth < fact_fuel s.limits
      → Finds s (get_fact fuel s depth)
  unfolding get_fact
  get_fact-Leaves zero depth enough within id t g = absurd (omega (arith, enough, within))
  get_fact-Leaves (suc fuel) depth enough within id t g = elim (Option-cases (lookup id t.facts)) [
    | inr (f, e) ↦ rw (e, get_fact) (Extends-refl, g, e)
    | inl e ↦ elim (Option-cases (lookup id t.errors)) [
      | inr (c, e') ↦ rw (e, e', get_fact) (Extends-refl, g, g.reasons id c e')
      | inl e' ↦ elim (Bool-cases (int_lt s.limits.depth depth || over_budget s t)) [
        | inl over ↦ rw (e, e', over, get_fact) (Extends-refl, g, λ x. ground (arith, x))
        | inr under ↦ elim (Bool-cases (mem id t.visiting)) [
          | inl busy ↦ rw (e, e', under, busy, get_fact) (Extends-refl, g, λ x. ground (arith, x))
          | inr idle ↦
              rw (e, e', under, idle, get_fact)
                (settle-Leaves s id t e idle
                  (examine (get_fact fuel s (suc depth)) s id (opened s id t))
                  (examine-Grounded s (get_fact fuel s (suc depth))
                    (get_fact-Leaves fuel (suc depth) (omega (arith, enough))
                      (deeper s.limits depth (ground arith)))
                    id (opened s id t) (opened-Good s id t g) (answers id)))
        ]
      ]
    ]
  ]

fact_fuel-positive : (s : Sources) → 0 < fact_fuel s.limits
fact_fuel-positive s = go s.limits.depth
  where
    go : (limit : ℤ) → 0 < (elim limit [ pos n ↦ suc (suc n) | negsuc n ↦ 2 ])
    go (pos n) = omega arith
    go (negsuc n) = omega arith

module _ (s : Sources) (answers : (id : String) → s.native id ≢ err out_of_fuel) where
  Leaves-Good :
      (t : FactTable) (P : NativeFact → FactTable → Type 0) (run : Result NativeFact × FactTable)
      → Leaves s t P run
      → Good s run.1
  Leaves-Good t P (ok f, u) h = h.1
  Leaves-Good t P (err e, u) h = h.1

  -- A call from outside leaves a grounded table.
  pub get_fact-Good :
      (id : String) (t : FactTable) → Good s t → Good s (get_fact (fact_fuel s.limits) s 0 id t).1
  get_fact-Good id t g =
      Leaves-Good t (λ f u. Has u id f) (get_fact (fact_fuel s.limits) s 0 id t)
        (get_fact-Leaves s answers (fact_fuel s.limits) 0 (omega arith) (fact_fuel-positive s) id t
          g)

-- An empty table is grounded.
pub no_facts-Good : (s : Sources) → Good s no_facts
unfolding lookup
no_facts-Good s = record {
  grounded = λ id f h. absurd (ground (arith, h));
  reasons = λ id e h. absurd (ground (arith, h));
}
