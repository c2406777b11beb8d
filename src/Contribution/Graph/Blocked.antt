-- ===== src/Contribution/Graph/Blocked.antt =====
-- internal/contribution/model.go: the blocked actors of a view.
use mathlib.Core.Path.{subst}
use hubnot.Prelude.{
  ◌≡◌, refl, sym, ap, ◌↔◌, map, >>=-eq-ok, ok-injective, ◌∙◌, Bool, true, false, ◌&&◌, String, List,
  [], ◌∷◌, ok, arith, Bool-cases, inl, inr, ◌==◌, eq_iff, has,
}
use hubnot.Prelude.Strings.{mem}
use hubnot.Contribution.Records.{Target, Verified}
use hubnot.Contribution.Graph.Nodes.{
  GraphRecord, Scope, Collection, collect_records, nothing_collected, intent_conflicts,
  start_reduction,
}
use hubnot.Contribution.Graph.Decisions.{target_eqb}
use hubnot.Contribution.Graph.Outcomes.{
  Outcome, Outcomes, Groups, outcomes_of, group_heads, outcome_at, actor_blocked, blocked_actors,
  no_outcome,
}
use hubnot.Contribution.Graph.View.{
  Evidence, View, sources_of, weigh_records, gather_records, check_input, gather_evidence,
  decision_heads_of,
}
use hubnot.Contribution.Graph.Signers.{baseline_facts, baseline_closed}
use hubnot.Contribution.Graph.Intake.{heads_at}
use hubnot.Contribution.Graph.Outcomes.Barred.{
  Barred, group_at, on_actor, blocked-Barred, heads_at-groups, Leads, group_heads-Leads,
}
use hubnot.Contribution.Graph.Reduced.Steps.{Parts}

-- An entry for the actor.
abbrev names_actor : String → Target × Outcome → Bool
names_actor actor entry = entry.0.kind == "actor" && entry.0.id == actor

mem-blocked_actors :
    (all outcomes : Outcomes) (actor : String)
    → mem actor (blocked_actors all outcomes)
      ≡ actor_blocked all actor && has (names_actor actor) outcomes
unfolding blocked_actors mem has
mem-blocked_actors all [] actor = ground (arith, Bool-cases (actor_blocked all actor))
mem-blocked_actors all ((t, o) ∷ outcomes) actor =
    ground (arith, mem-blocked_actors all outcomes actor, eq_iff t.id actor)

unnamed :
    (outcomes : Outcomes) (actor : String)
    → has (names_actor actor) outcomes ≡ false
    → outcome_at (record { kind = "actor"; id = actor }) outcomes ≡ no_outcome
unfolding outcome_at has target_eqb
unnamed [] actor h = refl
unnamed ((t, o) ∷ outcomes) actor h = ground (arith, h, unnamed outcomes actor)

-- The list of blocked actors has exactly those that `actorBlocked` blocks.
blocked_actors-exact :
    (outcomes : Outcomes) (actor : String)
    → mem actor (blocked_actors outcomes outcomes) ≡ actor_blocked outcomes actor
unfolding actor_blocked
blocked_actors-exact outcomes actor = elim (Bool-cases (has (names_actor actor) outcomes)) [
  | inl named ↦ ground (arith, mem-blocked_actors outcomes outcomes actor, named)
  | inr other ↦
      let none_at = unnamed outcomes actor other in
      let free : actor_blocked outcomes actor ≡ false = rw none_at refl in
      ground (arith, mem-blocked_actors outcomes outcomes actor, other, free)
]

pub blocks-exact :
    (scope : Scope) (e : Evidence) (view : View)
    → Parts scope e view
    → (actor : String) → mem actor view.blocked ≡ actor_blocked e.outcomes actor
blocks-exact scope e view parts actor =
    subst (λ b. mem actor b ≡ actor_blocked e.outcomes actor) (sym parts.blocks)
      (blocked_actors-exact e.outcomes actor)

-- The outcomes of the evidence are those of groups of decisions.
abbrev pub Grouped : Evidence → Type 0
Grouped e = (groups : Groups) × (outcomes_of groups ≡ e.outcomes)

gather_records-Grouped :
    (scope : Scope) (collected : Collection) (e : Evidence)
    → gather_records scope collected ≡ ok e
    → Grouped e
unfolding gather_records weigh_records
gather_records-Grouped scope collected e run =
    let s = sources_of scope collected.nodes in
    let started = (intent_conflicts collected.intents [] (start_reduction collected)).1 in
    let (table, found, run1) =
      >>=-eq-ok (baseline_facts s scope.policy.baseline started.table) _ run in
    let (u, closed, run2) =
      >>=-eq-ok (baseline_closed scope.policy.baseline scope.policy.baseline table) _ run1 in
    (_, ap (λ (x : Evidence). x.outcomes) (ok-injective run2))

pub gather_evidence-Grouped :
    (scope : Scope) (input : List Verified) (e : Evidence)
    → gather_evidence scope input ≡ ok e
    → Grouped e
unfolding gather_evidence
gather_evidence-Grouped scope input e run =
    let (checked, passed, run1) = >>=-eq-ok (check_input scope input) _ run in
    let (collected, collects, run2) =
      >>=-eq-ok (collect_records scope.policy.project input nothing_collected)
        (gather_records scope) run1 in
    gather_records-Grouped scope collected e run2

-- The decisions of groups on actors, and what a view says of them.
pub record Judged (groups : Groups) (view : View) (actor : String) : Type 0 where
  pub heads : List GraphRecord
  pub standing : Leads (group_at (on_actor actor) groups) heads
  pub shown : heads_at (on_actor actor) view.decision_heads ≡ map (λ n. n.id) heads
  pub blocked_iff : (mem actor view.blocked ≡ true) ↔ Barred heads

pub Parts-Judged :
    (scope : Scope) (e : Evidence) (view : View)
    → Parts scope e view
    → (groups : Groups) → outcomes_of groups ≡ e.outcomes
    → (actor : String) → Judged groups view actor
Parts-Judged scope e view parts groups same actor =
    let exact : mem actor view.blocked ≡ actor_blocked (outcomes_of groups) actor =
      blocks-exact scope e view parts actor ∙ ap (λ o. actor_blocked o actor) (sym same) in
    let barred = blocked-Barred groups actor in
    record {
      heads = group_heads (group_at (on_actor actor) groups);
      standing = group_heads-Leads (group_at (on_actor actor) groups);
      shown =
          ap (heads_at (on_actor actor)) (parts.decides ∙ ap decision_heads_of (sym same))
          ∙ heads_at-groups (on_actor actor) groups;
      blocked_iff = (λ m. barred.0 (sym exact ∙ m), λ b. exact ∙ barred.1 b);
    }
