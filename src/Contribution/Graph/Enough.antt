-- ===== src/Contribution/Graph/Enough.antt =====
-- internal/contribution/model.go: that the recursive closures of `Reduce` have the fuel they need.
use hubnot.Prelude.{
  ℕ, zero, suc, ◌+◌, ◌≤◌, ◌≡◌, refl, sym, ap, ◌∙◌, Bool, true, false, not, ◌||◌, String, List, [],
  ◌∷◌, none, some, ok, err, errorf, Option-cases, Bool-cases, inl, inr, arith, int_lt, ℤ, pos,
  negsuc, if◌then◌else◌, eqb,
}
use mathlib.Core.Path.{fun_ext}
use hubnot.Prelude.Strings.{mem}
use hubnot.Prelude.Maps.{lookup, insert}
use hubnot.Contribution.Graph.Facts.{
  NativeFact, FactTable, Lookup, Sources, over_budget, settle, examine, get_fact, fact_fuel,
}
use hubnot.Contribution.Graph.Nodes.{Reduction, invalidate}
use hubnot.Contribution.Graph.Signers.{find_fact}
use hubnot.Contribution.Graph.Decisions.{
  valid_node, decision_of, visit_decision, decision_valid, check_decisions,
}
use hubnot.Contribution.Graph.Admission.{
  Grounds, Admission, state_of, weigh, close_admission, admit, admit_fuel, admit_all,
}

deeper :
    (limit : ℤ) (fuel depth : ℕ)
    → int_lt limit (suc fuel + depth) ≡ true
    → int_lt limit (fuel + suc depth) ≡ true
deeper limit fuel depth enough =
    let same : fuel + suc depth ≡ suc fuel + depth = omega arith in ap (int_lt limit) same ∙ enough

landed : (limit : ℤ) (depth : ℕ) → int_lt limit (zero + depth) ≡ true → int_lt limit depth ≡ true
landed limit depth enough =
    let same : depth ≡ zero + depth = omega arith in ap (int_lt limit) same ∙ enough

-- The fuel of a call from outside, less one.
abbrev spare : ℤ → ℕ
spare (pos n) = suc n
spare (negsuc n) = 1

spare_fuel : (limit : ℤ) → admit_fuel limit ≡ suc (spare limit)
spare_fuel (pos n) = refl
spare_fuel (negsuc n) = refl

reaches : (limit : ℤ) → int_lt limit (spare limit + 0) ≡ true
reaches (pos n) = ground arith
reaches (negsuc n) = refl

with_more {ℓ} :
    {A : Type ℓ} (f : ℕ → A) (limit : ℤ)
    → ((more : ℕ) → spare limit ≤ more → f (suc more) ≡ f (suc (spare limit)))
    → (fuel : ℕ) → admit_fuel limit ≤ fuel
    → f fuel ≡ f (admit_fuel limit)
with_more f limit same zero le = absurd omega (arith, le, spare_fuel limit)
with_more f limit same (suc more) le =
    same more (omega (arith, le, spare_fuel limit)) ∙ sym (ap f (spare_fuel limit))

module _ (s : Sources) where
  -- A call of `getFact`, by the recursive calls that it makes.
  abbrev searches : (String → Lookup NativeFact) → ℕ → String → Lookup NativeFact
  searches get depth id t = elim (lookup id t.facts) [
    | some f ↦ (ok f, t)
    | none ↦ elim (lookup id t.errors) [
      | some e ↦ (err e, t)
      | none ↦
          if int_lt s.limits.depth depth || over_budget s t
          then (err (errorf "native dependency budget exceeded" []), t)
          else if mem id t.visiting
          then (err (errorf "native dependency cycle" []), t)
          else settle id (examine get s id (record t { visiting = id ∷ t.visiting }))
    ]
  ]

  -- Beyond the limit there is no recursive call.
  searches_beyond :
      (get other : String → Lookup NativeFact) (depth : ℕ) (id : String) (t : FactTable)
      → int_lt s.limits.depth depth ≡ true
      → searches get depth id t ≡ searches other depth id t
  searches_beyond get other depth id t beyond = elim (Option-cases (lookup id t.facts)) [
    | inr (f, found) ↦ rw (searches, found) refl
    | inl n ↦ elim (Option-cases (lookup id t.errors)) [
      | inr (e, failed) ↦ rw (searches, n, failed) refl
      | inl m ↦ rw (searches, n, m, beyond) refl
    ]
  ]

  pub get_fact-enough :
      (fuel more depth : ℕ) (id : String) (t : FactTable)
      → fuel ≤ more
      → int_lt s.limits.depth (fuel + depth) ≡ true
      → get_fact (suc more) s depth id t ≡ get_fact (suc fuel) s depth id t
  unfolding get_fact
  get_fact-enough zero more depth id t le enough =
      searches_beyond (get_fact more s (suc depth)) (get_fact zero s (suc depth)) depth id t
        (landed s.limits.depth depth enough)
  get_fact-enough (suc fuel) zero depth id t le enough = absurd omega (arith, le)
  get_fact-enough (suc fuel) (suc more) depth id t le enough =
      ap (λ get. searches get depth id t)
        (fun_ext (λ i. fun_ext (λ u.
          get_fact-enough fuel more (suc depth) i u (omega (arith, le))
            (deeper s.limits.depth fuel depth enough))))

  -- A call of `decisionValid`, by the recursive calls that it makes.
  abbrev follows :
      (String → Reduction → Bool × Reduction) → ℕ → String → Reduction → Bool × Reduction
  follows valid depth id st = elim (valid_node decision_of id st) [
    | none ↦ (false, st)
    | some (n, d) ↦
        if mem id st.visited
        then (true, st)
        else if int_lt s.limits.depth depth || mem id st.visiting
        then (false, invalidate id "decision cycle/depth exceeded" st)
        else visit_decision valid s id d (record st { visiting = id ∷ st.visiting })
  ]

  follows_beyond :
      (valid other : String → Reduction → Bool × Reduction) (depth : ℕ) (id : String)
      (st : Reduction)
      → int_lt s.limits.depth depth ≡ true
      → follows valid depth id st ≡ follows other depth id st
  follows_beyond valid other depth id st beyond =
      elim (Option-cases (valid_node decision_of id st)) [
        | inl n ↦ rw (follows, n) refl
        | inr ((n, d), found) ↦ rw (follows, found, beyond) refl
      ]

  pub decision_valid-enough :
      (fuel more depth : ℕ) (id : String) (st : Reduction)
      → fuel ≤ more
      → int_lt s.limits.depth (fuel + depth) ≡ true
      → decision_valid (suc more) s depth id st ≡ decision_valid (suc fuel) s depth id st
  unfolding decision_valid
  decision_valid-enough zero more depth id st le enough =
      follows_beyond (decision_valid more s (suc depth)) (decision_valid zero s (suc depth)) depth
        id st (landed s.limits.depth depth enough)
  decision_valid-enough (suc fuel) zero depth id st le enough = absurd omega (arith, le)
  decision_valid-enough (suc fuel) (suc more) depth id st le enough =
      ap (λ valid. follows valid depth id st)
        (fun_ext (λ i. fun_ext (λ u.
          decision_valid-enough fuel more (suc depth) i u (omega (arith, le))
            (deeper s.limits.depth fuel depth enough))))

module _ (g : Grounds) where
  -- A call of `admit`, by the recursive calls that it makes.
  abbrev admits :
      (String → Admission → Bool × Admission) → ℕ → String → Admission → Bool × Admission
  admits admit depth id a =
      if eqb (state_of id a) 2
      then (mem id a.admitted, a)
      else if eqb (state_of id a) 1 || int_lt g.limit depth || not (mem id g.candidate_ids)
      then (false, a)
      else close_admission id (weigh admit g id (record a { state = insert id 1 a.state }))

  admits_beyond :
      (one other : String → Admission → Bool × Admission) (depth : ℕ) (id : String) (a : Admission)
      → int_lt g.limit depth ≡ true
      → admits one depth id a ≡ admits other depth id a
  admits_beyond one other depth id a beyond = elim (Bool-cases (eqb (state_of id a) 2)) [
    | inl done ↦ rw done refl
    | inr todo ↦ elim (Bool-cases (eqb (state_of id a) 1)) [
      | inl visited ↦ rw (todo, visited) refl
      | inr fresh ↦ rw (todo, fresh, beyond) refl
    ]
  ]

  pub admit-enough :
      (fuel more depth : ℕ) (id : String) (a : Admission)
      → fuel ≤ more
      → int_lt g.limit (fuel + depth) ≡ true
      → admit (suc more) g depth id a ≡ admit (suc fuel) g depth id a
  unfolding admit
  admit-enough zero more depth id a le enough =
      admits_beyond (admit more g (suc depth)) (admit zero g (suc depth)) depth id a
        (landed g.limit depth enough)
  admit-enough (suc fuel) zero depth id a le enough = absurd omega (arith, le)
  admit-enough (suc fuel) (suc more) depth id a le enough =
      ap (λ admit. admits admit depth id a)
        (fun_ext (λ i. fun_ext (λ u.
          admit-enough fuel more (suc depth) i u (omega (arith, le))
            (deeper g.limit fuel depth enough))))

-- With any more fuel a search for a fact gives the same.
pub find_fact-enough :
    (s : Sources) (fuel : ℕ) (id : String) (t : FactTable)
    → fact_fuel s.limits ≤ fuel
    → get_fact fuel s 0 id t ≡ find_fact s id t
unfolding find_fact
find_fact-enough s fuel id t le =
    let limit = s.limits.depth in
    with_more (λ n. get_fact n s 0 id t) limit
      (λ more bound. get_fact-enough s (spare limit) more 0 id t bound (reaches limit)) fuel le

-- A round of the loop over the decisions does not depend on the fuel.
pub check_decisions-enough :
    (s : Sources) (fuel : ℕ) (id : String) (ids : List String) (st : Reduction)
    → fact_fuel s.limits ≤ fuel
    → check_decisions s ids ((decision_valid fuel s 0 id st).1) ≡ check_decisions s (id ∷ ids) st
unfolding check_decisions
check_decisions-enough s fuel id ids st le =
    let limit = s.limits.depth in
    ap (λ run. check_decisions s ids (run.1))
      (with_more (λ n. decision_valid n s 0 id st) limit
        (λ more bound. decision_valid-enough s (spare limit) more 0 id st bound (reaches limit))
        fuel le)

-- A round of the loop over the candidates does not depend on the fuel.
pub admit_all-enough :
    (g : Grounds) (fuel : ℕ) (id : String) (ids : List String) (a : Admission)
    → admit_fuel g.limit ≤ fuel
    → admit_all g ids ((admit fuel g 0 id a).1) ≡ admit_all g (id ∷ ids) a
unfolding admit_all
admit_all-enough g fuel id ids a le =
    ap (λ run. admit_all g ids (run.1))
      (with_more (λ n. admit n g 0 id a) g.limit
        (λ more bound. admit-enough g (spare g.limit) more 0 id a bound (reaches g.limit)) fuel le)
