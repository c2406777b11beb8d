-- ===== src/Contribution/Graph/Admission.antt =====
-- internal/contribution/model.go: which revisions are candidates, and which are admitted.
pub mod Eligible
mod Each
mod Calls
pub mod Exact
use hubnot.Prelude.{
  ℕ, zero, suc, Bool, true, false, not, ◌&&◌, ◌||◌, String, List, [], ◌∷◌, ◌++◌, none, some, ◌==◌,
  eqb, if◌then◌else◌, has, int_lt, ℤ, pos, negsuc,
}
use hubnot.Prelude.Strings.{mem}
use hubnot.Prelude.Maps.{Dict, lookup, insert, slices}
use hubnot.Contribution.Rules.{Request, Permission, evaluate}
use hubnot.Contribution.Records.{Target, Submission, Receipt, dependency_ids}
use hubnot.Contribution.Graph.Facts.{NativeFact, FactTable}
use hubnot.Contribution.Graph.Nodes.{GraphRecord, Reduction}
use hubnot.Contribution.Graph.Decisions.{valid_node, submission_of}
use hubnot.Contribution.Graph.Receipts.{intake_request, is_permitted}
use hubnot.Contribution.Graph.Outcomes.{Outcome, Outcomes, outcome_at, action_of, actor_blocked}

abbrev is_automatic : GraphRecord → Bool
is_automatic n = elim n.entry.received [ none ↦ false | some r ↦ r.automatic ]

-- The value of `admitted` for one submission.
unfoldable pub is_admissible :
    Outcomes → Dict (List GraphRecord) → String → GraphRecord → Submission → Bool
is_admissible outcomes receipts id n s =
    let o = outcome_at (record { kind = "submission"; id = id }) outcomes in
    if o.conflicted || actor_blocked outcomes n.entry.actor then false else elim o.chosen [
      | some d ↦
          action_of d == "admit"
          && is_permitted (λ p. p.allowed)
              (evaluate d.authority
                (record (intake_request n s) { manual = true; moderator = d.entry.actor }))
      | none ↦ has is_automatic (slices id receipts)
    ]

-- `candidates` and `out.Pending`.
pub record Candidates : Type 0 where
  pub candidates : List String
  pub pending : List String

abbrev add_candidate : String → List String → List String
add_candidate id candidates = if mem id candidates then candidates else candidates ++ id ∷ []

unfoldable pub candidate_of :
    Outcomes → Dict (List GraphRecord) → Reduction → String → Candidates → Candidates
candidate_of outcomes receipts st id c = elim (valid_node submission_of id st) [
  | none ↦ c
  | some (n, s) ↦
      if is_admissible outcomes receipts id n s
      then record c { candidates = add_candidate s.content.revision c.candidates }
      else record c { pending = c.pending ++ id ∷ [] }
]

unfoldable pub collect_candidates :
    Outcomes → Dict (List GraphRecord) → Reduction → List String → Candidates → Candidates
collect_candidates outcomes receipts st [] c = c
collect_candidates outcomes receipts st (id ∷ ids) c =
    collect_candidates outcomes receipts st ids (candidate_of outcomes receipts st id c)

unfoldable pub baseline_candidates : List String → List String → List String
baseline_candidates [] candidates = candidates
baseline_candidates (id ∷ ids) candidates = baseline_candidates ids (add_candidate id candidates)

-- What the closure `admit` reads.
pub record Grounds : Type 0 where
  pub limit : ℤ
  pub known : FactTable
  pub candidate_ids : List String
  pub blocked : String → Bool

-- What it changes: `state`, where 1 is under visit and 2 is done, and `out.Admitted`.
pub record Admission : Type 0 where
  pub state : Dict ℕ
  pub admitted : List String

abbrev pub nothing_admitted : Admission
nothing_admitted = record { state = []; admitted = [] }

abbrev pub state_of : String → Admission → ℕ
state_of id a = elim (lookup id a.state) [ none ↦ 0 | some n ↦ n ]

-- The loop over the dependencies, which does not stop at the first that is not admitted.
unfoldable pub admit_each :
    (String → Admission → Bool × Admission) → Bool → List String → Admission → Bool × Admission
admit_each admit allowed [] a = (allowed, a)
admit_each admit allowed (dep ∷ deps) a =
    let (holds, after) = admit dep a in admit_each admit (allowed && holds) deps after

-- The computation of `allowed`.
unfoldable pub weigh :
    (String → Admission → Bool × Admission) → Grounds → String → Admission → Bool × Admission
weigh admit g id a = elim (lookup id g.known.facts) [
  | none ↦ (false, a)
  | some f ↦
      if g.blocked f.actor || g.blocked f.content.author
      then (false, a)
      else admit_each admit true (dependency_ids f.content) a
]

-- What is recorded at the end of `admit`.
unfoldable pub close_admission : String → Bool × Admission → Bool × Admission
close_admission id (allowed, a) = (
  allowed,
  record {
    state = insert id 2 a.state;
    admitted = if allowed then id ∷ a.admitted else a.admitted;
  },
)

-- Without fuel the answer is that a revision is not admitted. A call beyond the limit of depth makes no
-- further call, so the fuel of `admit_all` is by that limit.
unfoldable pub admit : ℕ → Grounds → ℕ → String → Admission → Bool × Admission
admit zero g depth id a = (false, a)
admit (suc fuel) g depth id a =
    if eqb (state_of id a) 2
    then (mem id a.admitted, a)
    else if eqb (state_of id a) 1 || int_lt g.limit depth || not (mem id g.candidate_ids)
    then (false, a)
    else close_admission id
        (weigh (admit fuel g (suc depth)) g id (record a { state = insert id 1 a.state }))

-- As for facts: a call at a depth beyond the limit returns without a call.
abbrev pub admit_fuel : ℤ → ℕ
admit_fuel limit = elim limit [ pos n ↦ suc (suc n) | negsuc n ↦ 2 ]

unfoldable pub admit_all : Grounds → List String → Admission → Admission
admit_all g [] a = a
admit_all g (id ∷ ids) a = admit_all g ids ((admit (admit_fuel g.limit) g 0 id a).1)
