-- ===== src/Contribution/Graph/Admission/Each.antt =====
-- internal/contribution/model.go: the loop of `admit` over the dependencies.
use mathlib.Core.Path.{subst}
use hubnot.Prelude.{
  ℕ, ◌+◌, ◌≤◌, ◌<◌, ◌≡◌, ◌↔◌, Bool, true, false, ◌&&◌, String, List, [], ◌∷◌, arith, ◌==◌, eq_iff,
  Bool-cases, inl, inr, int_lt, pos, negsuc, ℤ,
}
use hubnot.Prelude.Strings.{mem, mem-cons_self}
use hubnot.Contribution.Graph.Facts.{depth_of}
use hubnot.Contribution.Graph.Grounds.{Lower}
use hubnot.Contribution.Graph.Admission.{Grounds, Admission, state_of, admit_each}
use hubnot.Contribution.Graph.Admission.Eligible.{
  Eligible, Ranked, Right, Moves, Moves-refl, Moves-trans, Settled, Settles,
}

module _ (g : Grounds) (ranked : Ranked g) where
  -- What the loop over the dependencies returns and leaves.
  pub record Each (allowed : Bool) (deps : List String) (a : Admission) (run : Bool × Admission)
      : Type 0 where
    pub right : Right g run.1
    pub moves : Moves g a run.1
    pub exact :
        (run.0 ≡ true)
        ↔ ((allowed ≡ true) × ((dep : String) → mem dep deps ≡ true → Eligible g dep))

  module _ (depth : ℕ) (call : String → Admission → Bool × Admission)
      (settles : Settles g depth call) where
    pub admit_each-exact :
        (n : ℕ) (allowed : Bool) (deps : List String) (a : Admission)
        → ((d : ℕ) → d < n → int_lt g.limit (depth + d) ≡ false)
        → ((dep : String) → mem dep deps ≡ true → Lower g.known n dep)
        → Right g a
        → ((k : String) → state_of k a ≡ 1 → n ≤ depth_of k g.known)
        → Each allowed deps a (admit_each call allowed deps a)
    unfolding admit_each mem
    admit_each-exact n allowed [] a within lower r above = record {
      right = r;
      moves = Moves-refl g;
      exact = (λ e. (e, λ dep m. absurd cc), λ h. h.0);
    }
    admit_each-exact n allowed (dep ∷ deps) a within lower r above =
        let (f, has, lt) = lower dep (mem-cons_self dep deps) in
        let one : Settled g dep a (call dep a) =
          settles dep a f has (within (depth_of dep g.known) lt) r
            (λ k e. omega (arith, above k e, lt)) in
        let rest : Each (allowed && (call dep a).0) deps (call dep a).1
            (admit_each call (allowed && (call dep a).0) deps (call dep a).1) =
          admit_each-exact n (allowed && (call dep a).0) deps (call dep a).1 within
            (λ d m. lower d (ground (arith, m))) one.right
            (λ k e. above k (one.moves.clears k e)) in
        record {
          right = rest.right;
          moves = Moves-trans g one.moves rest.moves;
          exact = (
            λ e.
                let h = rest.exact.0 e in
                (
                  ground (arith, h.0),
                  λ d m. elim (Bool-cases (dep == d)) [
                    | inl same ↦
                        subst (Eligible g) ((eq_iff dep d).0 same)
                          (one.exact.0 (ground (arith, h.0)))
                    | inr other ↦ h.1 d (ground (arith, m))
                  ],
                ),
            λ h.
                let holds = one.exact.1 (h.1 dep (mem-cons_self dep deps)) in
                rest.exact.1 (ground (arith, h.0), λ d m. h.1 d (ground (arith, m))),
          );
        }

  pub int_lt-le : (z : ℤ) (m n : ℕ) → int_lt z n ≡ false → m ≤ n → int_lt z m ≡ false
  int_lt-le (pos z) m n e le = ground (arith, e, le)
  int_lt-le (negsuc z) m n e le = absurd cc
