-- ===== src/Contribution/Graph/Outcomes/Barred.antt =====
-- internal/contribution/model.go: which actors the decisions block.
use hubnot.Prelude.{
  has, not, All, All-map, All-Mem, All-zip, All-select, All-select_test, select-All, ◌≡◌, ◌↔◌, refl,
  sym, ap, ◌∙◌, true, false, String, List, [], ◌∷◌, map, arith, ◌==◌, eq_iff, if◌then◌else◌,
  Bool-cases, inl, inr, Bool, none, some, is_empty, ltb, length, select,
}
use mathlib.Core.List.{Mem}
use hubnot.Prelude.Strings.{mem, str_ltb}
use hubnot.Prelude.Sort.{sort_by, All-sort_by, sort_by-All}
use hubnot.Contribution.Records.{Target}
use hubnot.Contribution.Graph.Nodes.{GraphRecord}
use hubnot.Contribution.Graph.Decisions.{target_eqb}
use hubnot.Contribution.Graph.View.{decision_heads_of}
use hubnot.Contribution.Graph.Intake.{heads_at}
use hubnot.Contribution.Graph.Outcomes.{
  decision_parents_of, Groups, Outcome, chose, group_heads, outcome_of, outcomes_of, outcome_at,
  action_of, actor_blocked,
}

-- The decisions with the target; there are none where no group has it.
abbrev pub group_at : Target → Groups → List GraphRecord
group_at target [] = []
group_at target ((t, group) ∷ groups) =
    if target_eqb t target then group else group_at target groups

abbrev pub on_actor : String → Target
on_actor actor = record { kind = "actor"; id = actor }

-- The decisions on an actor that nothing succeeds block the actor: there are several, which
-- disagree, or the only one is a block.
pub data Barred : List GraphRecord → Type 0 where
  disputed : (n m : GraphRecord) (rest : List GraphRecord) → Barred (n ∷ m ∷ rest)
  sentenced : (n : GraphRecord) → action_of n ≡ "block" → Barred (n ∷ [])

outcome_at-groups :
    (target : Target) (groups : Groups)
    → outcome_at target (outcomes_of groups) ≡ outcome_of (group_at target groups)
unfolding outcome_at outcomes_of
outcome_at-groups target [] = unfold outcome_of group_heads sort_by select in refl
outcome_at-groups target ((t, group) ∷ groups) = elim (Bool-cases (target_eqb t target)) [
  | inl same ↦ rw same refl
  | inr other ↦ rw other (outcome_at-groups target groups)
]

-- The test of `actorBlocked`, on the heads.
abbrev judged : List GraphRecord → Bool
judged [] = false
judged (n ∷ []) = action_of n == "block"
judged (n ∷ m ∷ rest) = true

abbrev tested : Outcome → Bool
tested o = if o.conflicted then true else chose "block" o

judged-outcome : (group : List GraphRecord) → tested (outcome_of group) ≡ judged (group_heads group)
unfolding outcome_of
judged-outcome group = go (group_heads group)
  where
    go :
        (heads : List GraphRecord)
        → tested (record {
          head_ids = map (λ n. n.id) heads;
          chosen = elim heads [ [] ↦ none | n ∷ rest ↦ if is_empty rest then some n else none ];
          conflicted = ltb 1 (length heads);
        })
          ≡ judged heads
    go [] = refl
    go (n ∷ []) = refl
    go (n ∷ m ∷ rest) = ground arith

judged-Barred : (heads : List GraphRecord) → judged heads ≡ true → Barred heads
judged-Barred [] h = absurd ground (arith, h)
judged-Barred (n ∷ []) h = Barred.sentenced n ((eq_iff (action_of n) "block").0 h)
judged-Barred (n ∷ m ∷ rest) h = Barred.disputed n m rest

Barred-judged : {heads : List GraphRecord} → Barred heads → judged heads ≡ true
Barred-judged (disputed n m rest) = refl
Barred-judged (sentenced n e) = (eq_iff (action_of n) "block").1 e

pub blocked-Barred :
    (groups : Groups) (actor : String)
    → (actor_blocked (outcomes_of groups) actor ≡ true)
      ↔ Barred (group_heads (group_at (on_actor actor) groups))
unfolding actor_blocked
blocked-Barred groups actor =
    let group = group_at (on_actor actor) groups in
    let same : actor_blocked (outcomes_of groups) actor ≡ judged (group_heads group) =
      ap tested (outcome_at-groups (on_actor actor) groups) ∙ judged-outcome group in
    (λ h. judged-Barred (group_heads group) (sym same ∙ h), λ b. same ∙ Barred-judged b)

-- The heads that a view shows for a target are those of its group.
pub heads_at-groups :
    (target : Target) (groups : Groups)
    → heads_at target (decision_heads_of (outcomes_of groups))
      ≡ map (λ n. n.id) (group_heads (group_at target groups))
unfolding heads_at decision_heads_of outcomes_of
heads_at-groups target [] = unfold group_heads sort_by select in refl
heads_at-groups target ((t, group) ∷ groups) = elim (Bool-cases (target_eqb t target)) [
  | inl same ↦ rw same (unfold outcome_of in refl)
  | inr other ↦ rw other (heads_at-groups target groups)
]

-- No decision of the group names this one as a parent.
abbrev pub Unanswered : List GraphRecord → GraphRecord → Type 0
Unanswered group n = All (λ m. mem n.id (decision_parents_of m) ≡ false) group

-- The heads of a group are its decisions that none of it names as a parent.
pub record Leads (group heads : List GraphRecord) : Type 0 where
  pub known : All (λ n. Mem n group × Unanswered group n) heads
  pub complete : All (λ n. Unanswered group n → Mem n heads) group

abbrev answers : String → GraphRecord → Bool
answers id m = mem id (decision_parents_of m)

unanswered-of :
    (id : String) (group : List GraphRecord)
    → has (answers id) group ≡ false
    → All (λ m. mem id (decision_parents_of m) ≡ false) group
unfolding has
unanswered-of id [] h = tt
unanswered-of id (m ∷ group) h = (ground (arith, h), unanswered-of id group (ground (arith, h)))

none_answers :
    (id : String) (group : List GraphRecord)
    → All (λ m. mem id (decision_parents_of m) ≡ false) group
    → has (answers id) group ≡ false
unfolding has
none_answers id [] h = refl
none_answers id (m ∷ group) h = ground (arith, h.0, none_answers id group h.1)

pub group_heads-Leads : (group : List GraphRecord) → Leads group (group_heads group)
unfolding group_heads
group_heads-Leads group =
    let less = λ (a b : GraphRecord). str_ltb a.id b.id in
    let keep = λ (n : GraphRecord). not (has (answers n.id) group) in
    let kept = select keep group in
    let heads = sort_by less kept in
    record {
      known =
          All-sort_by less (λ n. Mem n group × Unanswered group n) kept
            (All-zip (λ n. Mem n group) (Unanswered group) kept
              (All-select (λ n. Mem n group) keep group (All-Mem group))
              (All-map (λ n. keep n ≡ true) (Unanswered group)
                (λ n t. unanswered-of n.id group (ground (arith, t))) kept
                (All-select_test keep group)));
      complete =
          All-map (λ n. keep n ≡ true → Mem n heads) (λ n. Unanswered group n → Mem n heads)
            (λ n inside u. inside (ground (arith, none_answers n.id group u))) group
            (select-All (λ n. Mem n heads) keep group
              (sort_by-All less (λ n. Mem n heads) kept (All-Mem heads)));
    }
