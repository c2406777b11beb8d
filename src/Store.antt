-- ===== src/Store.antt =====
-- store.go: `validateActorChains`.
pub mod Chains
use hubnot.Prelude.{
  ℕ, suc, String, Bool, true, false, not, ◌&&◌, List, [], ◌∷◌, Option, none, some, ◌==◌, ltb, eqb,
  Checked, ok, errorf, str, num, refuse, ◌>>=◌, ◌>>◌,
}
use hubnot.Prelude.Maps.{Dict, push}
use hubnot.Prelude.Sort.{sort_by}
use hubnot.Event.{StoredEvent}
use hubnot.Event.Ids.{short_id}

-- The first loop; the source keeps the indexes of the events.
unfoldable pub collect_chains : Dict (List StoredEvent) → List StoredEvent → Dict (List StoredEvent)
collect_chains by_actor [] = by_actor
collect_chains by_actor (s ∷ events) = collect_chains (push s.event.actor s by_actor) events

unfoldable pub by_sequence : StoredEvent → StoredEvent → Bool
by_sequence a b = ltb a.event.sequence b.event.sequence

-- `previous != nil && previous.Event.Sequence == stored.Event.Sequence && previous.ID != stored.ID`
unfoldable pub forks : Option StoredEvent → StoredEvent → Bool
forks none s = false
forks (some previous) s = eqb previous.event.sequence s.event.sequence && not (previous.id == s.id)

abbrev pub id_of : Option StoredEvent → String
id_of none = ""
id_of (some previous) = previous.id

-- The loop over the chain of an actor.
unfoldable pub check_chain : String → ℕ → Option StoredEvent → List StoredEvent → Checked
unfolding forks
check_chain actor index previous [] = ok tt
check_chain actor index previous (s ∷ chain) = do
  refuse (forks previous s) (
      errorf "actor %s has conflicting sequence %s"
        (str (short_id actor) ∷ num s.event.sequence ∷ []))
  refuse (not (eqb s.event.sequence (suc index)))
      (errorf "actor %s has invalid sequence %s" (str (short_id actor) ∷ num s.event.sequence ∷ []))
  refuse (not (s.event.previous == id_of previous)) (
      errorf "actor %s has a broken event chain at sequence %s"
        (str (short_id actor) ∷ num s.event.sequence ∷ []))
  check_chain actor (suc index) (some s) chain

unfoldable pub check_chains : Dict (List StoredEvent) → Checked
unfolding check_chain by_sequence
check_chains [] = ok tt
check_chains ((actor, chain) ∷ by_actor) =
    check_chain actor 0 none (sort_by by_sequence chain) >> check_chains by_actor

unfoldable pub validate_actor_chains : List StoredEvent → Checked
unfolding collect_chains check_chains
validate_actor_chains events = check_chains (collect_chains [] events)
