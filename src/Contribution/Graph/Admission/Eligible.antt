-- ===== src/Contribution/Graph/Admission/Eligible.antt =====
-- internal/contribution/model.go: what may be admitted, and the state of the calls of `admit`.
use hubnot.Prelude.{ℕ, ◌+◌, ◌<◌, ◌≡◌, ◌↔◌, Bool, true, false, String, int_lt}
use hubnot.Prelude.Strings.{mem}
use hubnot.Contribution.Records.{dependency_ids}
use hubnot.Contribution.Graph.Facts.{NativeFact, depth_of}
use hubnot.Contribution.Graph.Grounds.{Has, Lower}
use hubnot.Contribution.Graph.Admission.{Grounds, Admission, state_of}

-- What may be admitted: a candidate with a fact, of actors who are not blocked, with all that it
-- depends on.
pub data Eligible (g : Grounds) : String → Type 0 where
  eligible :
      {id : String} (f : NativeFact)
      → Has g.known id f
      → mem id g.candidate_ids ≡ true
      → g.blocked f.actor ≡ false
      → g.blocked f.content.author ≡ false
      → ((dep : String) → mem dep (dependency_ids f.content) ≡ true → Eligible g dep)
      → Eligible g id

module _ (g : Grounds) where
  pub Eligible-candidate : {id : String} → Eligible g id → mem id g.candidate_ids ≡ true
  Eligible-candidate (eligible f h c b a d) = c

  pub Eligible-Has : {id : String} → Eligible g id → (f : NativeFact) × Has g.known id f
  Eligible-Has (eligible f h c b a d) = (f, h)

  -- Every fact has a depth within the limit, and depends on facts of smaller depth.
  abbrev pub Ranked : Type 0
  Ranked =
      (id : String) (f : NativeFact)
      → Has g.known id f
      → (int_lt g.limit (depth_of id g.known) ≡ false)
        × ((dep : String)
            → mem dep (dependency_ids f.content) ≡ true
            → Lower g.known (depth_of id g.known) dep)

  -- What is done is admitted exactly if it is eligible.
  pub record Right (a : Admission) : Type 0 where
    pub done : (id : String) → state_of id a ≡ 2 → (mem id a.admitted ≡ true) ↔ Eligible g id
    pub only : (id : String) → mem id a.admitted ≡ true → state_of id a ≡ 2

  pub record Moves (a b : Admission) : Type 0 where
    pub clears : (id : String) → state_of id b ≡ 1 → state_of id a ≡ 1
    pub grows : (id : String) → mem id a.admitted ≡ true → mem id b.admitted ≡ true

  pub Moves-refl : {a : Admission} → Moves a a
  Moves-refl = record { clears = λ id e. e; grows = λ id m. m }

  pub Moves-trans : {a b c : Admission} → Moves a b → Moves b c → Moves a c
  Moves-trans x y = record {
    clears = λ id e. x.clears id (y.clears id e);
    grows = λ id m. y.grows id (x.grows id m);
  }

  -- What a call of `admit` returns and leaves.
  pub record Settled (id : String) (a : Admission) (run : Bool × Admission) : Type 0 where
    pub right : Right run.1
    pub moves : Moves a run.1
    pub exact : (run.0 ≡ true) ↔ Eligible g id
    pub kept : run.0 ≡ true → mem id run.1.admitted ≡ true

  -- All that is under visit is deeper.
  abbrev pub Above : String → Admission → Type 0
  Above id a = (k : String) → state_of k a ≡ 1 → depth_of id g.known < depth_of k g.known

  abbrev pub Settles : ℕ → (String → Admission → Bool × Admission) → Type 0
  Settles depth call =
      (id : String) (a : Admission) (f : NativeFact)
      → Has g.known id f
      → int_lt g.limit (depth + depth_of id g.known) ≡ false
      → Right a
      → Above id a
      → Settled id a (call id a)
