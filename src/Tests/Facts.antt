-- ===== src/Tests/Facts.antt =====
-- store.go and run_withdrawal.go on the events of one actor: a run request and its withdrawal.
use hubnot.Prelude.{◌≡◌, refl, String, List, [], ◌∷◌, ok, ◌↔◌, select, has}
use hubnot.Prelude.Maps.{Dict, lookup}
use hubnot.Prelude.Sort.{sort_by}
use hubnot.Event.{StoredEvent, zero_event, stored}
use hubnot.Store.{by_sequence, validate_actor_chains}
use hubnot.Store.Chains.{IsChain, by, validate_actor_chains_iff}
use hubnot.Withdrawal.{
  competes, validate_against, validate_run_withdrawal, Withdraws, validate_run_withdrawal-Withdraws,
}

abbrev request : StoredEvent
request = stored "q" (record zero_event { kind = "run.request"; actor = "alice"; sequence = 1 })

abbrev withdrawal : StoredEvent
withdrawal = stored "w" (record zero_event {
  kind = "run.withdraw";
  actor = "alice";
  subject = "q";
  sequence = 2;
  previous = "q";
})

abbrev events : List StoredEvent
events = withdrawal ∷ request ∷ []

abbrev by_id : Dict StoredEvent
by_id = ("w", withdrawal) ∷ ("q", request) ∷ []

validate_actor_chains_iff_example :
    (validate_actor_chains events ≡ ok tt)
    ↔ ((actor : String) → IsChain 0 "" (sort_by by_sequence (select (by actor) events)))
validate_actor_chains_iff_example = validate_actor_chains_iff events

withdraws : validate_run_withdrawal withdrawal by_id ≡ ok tt
unfolding validate_run_withdrawal validate_against competes has lookup
withdraws = refl

validate_run_withdrawal-Withdraws_example : Withdraws withdrawal by_id
validate_run_withdrawal-Withdraws_example =
    validate_run_withdrawal-Withdraws withdrawal by_id withdraws
