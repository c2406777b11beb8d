-- ===== src/Contribution/Graph/View.antt =====
-- internal/contribution/model.go: `Reduce` as a whole, and the evidence for an intake.
use hubnot.Prelude.{
  not, ◌&&◌, ◌||◌, String, List, [], ◌∷◌, ◌++◌, none, some, Result, ok, errorf, Checked, refuse,
  ◌>>=◌, ◌>>◌, ltb, if◌then◌else◌, length, select, int_lt,
}
use hubnot.Prelude.Strings.{mem, str_ltb}
use hubnot.Prelude.Maps.{Dict, present}
use hubnot.Prelude.Sort.{sort_by, sort_strings}
use hubnot.Contribution.Checks.{max_graph_records}
use hubnot.Contribution.Rules.{AuthorityRef, validate_authority}
use hubnot.Contribution.Records.{Target, Verified}
use hubnot.Contribution.Graph.Facts.{NativeFact, Sources}
use hubnot.Contribution.Graph.Nodes.{
  Conflict, Diagnostic, GraphRecord, Scope, Reduction, Collection, collect_records,
  nothing_collected, intent_conflicts, start_reduction,
}
use hubnot.Contribution.Graph.Signers.{baseline_facts, baseline_closed, check_nodes}
use hubnot.Contribution.Graph.Decisions.{check_decisions, valid_node, submission_of}
use hubnot.Contribution.Graph.Receipts.{check_receipts}
use hubnot.Contribution.Graph.Outcomes.{
  Outcomes, group_decisions, outcomes_of, decision_conflicts, actor_blocked, blocked_actors, shown,
}
use hubnot.Contribution.Graph.Admission.{
  Candidates, Grounds, collect_candidates, baseline_candidates, admit_all, nothing_admitted,
}
use hubnot.Contribution.Graph.Visibility.{heads_of, visible_ids}

-- What the records and the facts establish before anything is admitted.
pub record Evidence : Type 0 where
  pub known_ids : List String
  pub conflicts : List Conflict
  pub reduction : Reduction
  pub receipts : Dict (List GraphRecord)
  pub outcomes : Outcomes

abbrev pub sources_of : Scope → Dict GraphRecord → Sources
sources_of scope nodes = record {
  counted = length nodes;
  limits = scope.policy.limits;
  native = scope.native;
}

-- The loops over the records, once the baseline was found.
unfoldable pub weigh_records : Scope → Sources → List String → List Conflict → Reduction → Evidence
weigh_records scope s ids intents st =
    let decided = check_decisions s ids (check_nodes scope s ids st) in
    let (receipts, received) = check_receipts ids ([], decided) in
    let (groups, grouped) = group_decisions receipts ids ([], received) in
    record {
      known_ids = ids;
      conflicts = intents ++ decision_conflicts (outcomes_of groups);
      reduction = grouped;
      receipts = receipts;
      outcomes = outcomes_of groups;
    }

-- From the conflicts of intents to the decisions that are chosen.
unfoldable pub gather_records : Scope → Collection → Result Evidence
gather_records scope collected =
    let s = sources_of scope collected.nodes in
    let (intents, started) = intent_conflicts collected.intents [] (start_reduction collected) in
    baseline_facts s scope.policy.baseline started.table >>= λ table.
    baseline_closed scope.policy.baseline scope.policy.baseline table
    >> ok (
        weigh_records scope s (sort_strings collected.known_ids) intents
          (record started { table = table }))

-- The tests of `Reduce` before its first loop; the adapters are never nil.
unfoldable pub check_input : Scope → List Verified → Checked
check_input scope input =
    refuse (not (present scope.current.policy)) (errorf "contributions disabled" [])
    >> validate_authority scope.current scope.policy
    >> refuse
        (ltb max_graph_records (length input)
          || int_lt scope.policy.limits.retained.events (length input))
        (errorf "contribution graph budget exceeded" [])

-- `Reduce` up to the decisions that are chosen.
unfoldable pub gather_evidence : Scope → List Verified → Result Evidence
gather_evidence scope input = do
  check_input scope input
  collected ← collect_records scope.policy.project input nothing_collected
  gather_records scope collected

pub record View : Type 0 where
  pub roots : Dict String
  pub project : String
  pub authority : AuthorityRef
  pub blocked : List String
  pub admitted : List String
  pub visible : List String
  pub heads : Dict (List String)
  pub pending : List String
  pub conflicts : List Conflict
  pub revoked : List String
  pub invalid : List Diagnostic
  pub decision_heads : List (Target × List String)

unfoldable pub roots_of : Dict NativeFact → Dict String
roots_of [] = []
roots_of ((id, f) ∷ facts) = (id, f.content.root_id) ∷ roots_of facts

unfoldable pub decision_heads_of : Outcomes → List (Target × List String)
decision_heads_of [] = []
decision_heads_of ((t, o) ∷ outcomes) = (t, o.head_ids) ∷ decision_heads_of outcomes

unfoldable pub candidates_of : Scope → Evidence → Candidates
candidates_of scope e =
    collect_candidates e.outcomes e.receipts e.reduction e.known_ids
      (record { candidates = baseline_candidates scope.policy.baseline []; pending = [] })

abbrev pub grounds_of : Scope → Evidence → Grounds
grounds_of scope e = record {
  limit = scope.policy.limits.depth;
  known = e.reduction.table;
  candidate_ids = (candidates_of scope e).candidates;
  blocked = actor_blocked e.outcomes;
}

-- The candidates that are admitted, in the order of their IDs.
unfoldable pub admitted_ids : Scope → Evidence → List String
admitted_ids scope e =
    let g = grounds_of scope e in
    let ids = sort_strings g.candidate_ids in
    select (λ id. mem id (admit_all g ids nothing_admitted).admitted) ids

-- The last loop over the submissions.
unfoldable pub more_pending : Reduction → List String → List String → List String → List String
more_pending st admitted [] pending = pending
more_pending st admitted (id ∷ ids) pending =
    more_pending st admitted ids (elim (valid_node submission_of id st) [
      | none ↦ pending
      | some (n, s) ↦
          if not (mem s.content.revision admitted) && not (mem id pending)
          then pending ++ id ∷ []
          else pending
    ])

-- The rest of `Reduce`.
unfoldable pub view_of : Scope → Evidence → Result View
view_of scope e = do
  let table = e.reduction.table
  let admitted = admitted_ids scope e
  let heads = heads_of table admitted
  visible ← visible_ids table (shown e.outcomes) heads admitted
  ok (record {
    roots = roots_of table.facts;
    project = scope.policy.project;
    authority = scope.current.ref;
    blocked = blocked_actors e.outcomes e.outcomes;
    admitted = admitted;
    visible = visible;
    heads = heads;
    pending =
        sort_strings
          (more_pending e.reduction admitted e.known_ids (candidates_of scope e).pending);
    conflicts = sort_by (λ a b. str_ltb a.key b.key) e.conflicts;
    revoked = sort_strings e.reduction.revoked;
    invalid = sort_by (λ a b. str_ltb a.id b.id) e.reduction.invalid;
    decision_heads = decision_heads_of e.outcomes;
  })

unfoldable pub reduce : Scope → List Verified → Result View
reduce scope input = do e ← gather_evidence scope input; view_of scope e
