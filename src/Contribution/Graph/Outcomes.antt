-- ===== src/Contribution/Graph/Outcomes.antt =====
-- internal/contribution/model.go: the decisions that stand, their heads and what they choose.
pub mod Barred
use hubnot.Prelude.{
  Bool, true, false, not, ◌&&◌, String, List, [], ◌∷◌, ◌++◌, map, Option, none, some, ◌==◌, ltb,
  if◌then◌else◌, has, select, length, is_empty,
}
use hubnot.Prelude.Strings.{mem}
use hubnot.Prelude.Maps.{Dict, slices}
use hubnot.Prelude.Sort.{sort_by}
use hubnot.Prelude.Strings.{str_ltb}
use hubnot.Policy.Texts.{concat}
use hubnot.Contribution.Records.{Target}
use hubnot.Contribution.Graph.Nodes.{GraphRecord, Conflict, Reduction, invalidate}
use hubnot.Contribution.Graph.Decisions.{target_eqb, valid_node, decision_of}

-- A Go `map[Target][]*graphRecord`.
abbrev pub Groups : Type 0
Groups = List (Target × List GraphRecord)

-- `groups[target] = append(groups[target], n)`
unfoldable pub push_group : Target → GraphRecord → Groups → Groups
push_group target n [] = (target, n ∷ []) ∷ []
push_group target n ((t, group) ∷ groups) =
    if target_eqb t target
    then (t, group ++ n ∷ []) ∷ groups
    else (t, group) ∷ push_group target n groups

-- One round of the loop that collects the groups.
unfoldable pub group_decision :
    Dict (List GraphRecord) → String → Groups × Reduction → Groups × Reduction
group_decision receipts id (groups, st) = elim (valid_node decision_of id st) [
  | none ↦ (groups, st)
  | some (n, d) ↦
      if not n.effective
      then (groups, st)
      else if d.target.kind == "submission" && is_empty (slices d.target.id receipts)
      then (groups, invalidate id "admission decision lacks completed bounded intake" st)
      else (push_group d.target n groups, st)
]

unfoldable pub group_decisions :
    Dict (List GraphRecord) → List String → Groups × Reduction → Groups × Reduction
group_decisions receipts [] run = run
group_decisions receipts (id ∷ ids) run =
    group_decisions receipts ids (group_decision receipts id run)

abbrev pub decision_parents_of : GraphRecord → List String
decision_parents_of n = elim n.entry.decided [ none ↦ [] | some d ↦ d.parents ]

abbrev pub action_of : GraphRecord → String
action_of n = elim n.entry.decided [ none ↦ "" | some d ↦ d.action ]

-- The records of a group that no record of the group has as a parent, sorted by ID.
unfoldable pub group_heads : List GraphRecord → List GraphRecord
group_heads group =
    sort_by (λ a b. str_ltb a.id b.id)
      (select (λ n. not (has (λ m. mem n.id (decision_parents_of m)) group)) group)

-- What the loop over the groups finds for one target: its entries of `out.DecisionHeads`, `chosen` and
-- `conflicted`.
pub record Outcome : Type 0 where
  pub head_ids : List String
  pub chosen : Option GraphRecord
  pub conflicted : Bool

unfoldable pub outcome_of : List GraphRecord → Outcome
outcome_of group =
    let heads = group_heads group in
    record {
      head_ids = map (λ n. n.id) heads;
      chosen = elim heads [ [] ↦ none | n ∷ rest ↦ if is_empty rest then some n else none ];
      conflicted = ltb 1 (length heads);
    }

abbrev pub Outcomes : Type 0
Outcomes = List (Target × Outcome)

unfoldable pub outcomes_of : Groups → Outcomes
outcomes_of [] = []
outcomes_of ((target, group) ∷ groups) = (target, outcome_of group) ∷ outcomes_of groups

abbrev pub no_outcome : Outcome
no_outcome = record { head_ids = []; chosen = none; conflicted = false }

-- The entries of a target; a missing key has the zero values.
unfoldable pub outcome_at : Target → Outcomes → Outcome
outcome_at target [] = no_outcome
outcome_at target ((t, o) ∷ outcomes) =
    if target_eqb t target then o else outcome_at target outcomes

abbrev pub key_of_target : Target → String
key_of_target t = concat t.kind (concat ":" t.id)

unfoldable pub decision_conflicts : Outcomes → List Conflict
decision_conflicts [] = []
decision_conflicts ((t, o) ∷ outcomes) =
    if o.conflicted
    then record { key = key_of_target t; known_ids = o.head_ids } ∷ decision_conflicts outcomes
    else decision_conflicts outcomes

abbrev pub chose : String → Outcome → Bool
chose action o = elim o.chosen [ none ↦ false | some n ↦ action_of n == action ]

-- The closure `actorBlocked`: a conflict blocks as well.
unfoldable pub actor_blocked : Outcomes → String → Bool
actor_blocked outcomes actor =
    let o = outcome_at (record { kind = "actor"; id = actor }) outcomes in
    if o.conflicted then true else chose "block" o

-- `out.BlockedActors`
unfoldable pub blocked_actors : Outcomes → Outcomes → List String
blocked_actors all [] = []
blocked_actors all ((t, o) ∷ outcomes) =
    if t.kind == "actor" && actor_blocked all t.id
    then t.id ∷ blocked_actors all outcomes
    else blocked_actors all outcomes

-- The visibility that the decisions on a revision leave to it.
unfoldable pub shown : Outcomes → String → Bool
shown outcomes id =
    let o = outcome_at (record { kind = "revision"; id = id }) outcomes in
    not o.conflicted && not (chose "hide" o)
