-- ===== src/Policy/Latest.antt =====
-- proposal.go and ci.go: of the facts that pass a test, the last of each actor by its sequence number.
pub mod Actors
pub mod Current
pub mod Exact
use hubnot.Prelude.{
  ℕ, String, Bool, true, false, not, ◌&&◌, ◌||◌, List, [], ◌∷◌, Option, none, some, ◌==◌, ltb,
  if◌then◌else◌,
}
use hubnot.Prelude.Maps.{Dict, lookup, insert, values}
use hubnot.Event.{StoredEvent}
use hubnot.Event.Order.{sort_stored_events}

abbrev pub newer : StoredEvent → Option StoredEvent → Bool
newer stored none = true
newer stored (some previous) = ltb previous.event.sequence stored.event.sequence

-- One round of the loop: the event replaces an earlier one of its actor.
unfoldable pub note_latest : Dict StoredEvent → StoredEvent → Dict StoredEvent
note_latest by_actor stored =
    if newer stored (lookup stored.event.actor by_actor)
    then insert stored.event.actor stored by_actor
    else by_actor

-- The loop `for _, stored := range events { if !counts(stored) { continue } ... }`.
unfoldable pub latest_by_actor :
    (StoredEvent → Bool) → Dict StoredEvent → List StoredEvent → Dict StoredEvent
unfolding note_latest
latest_by_actor counts by_actor [] = by_actor
latest_by_actor counts by_actor (stored ∷ events) =
    latest_by_actor counts (if counts stored then note_latest by_actor stored else by_actor) events

unfoldable pub is_review_of : String → StoredEvent → Bool
is_review_of proposal_id stored =
    stored.event.kind == "review.submit" && stored.event.subject == proposal_id

-- `currentReviews`
unfoldable pub current_reviews : List StoredEvent → String → List StoredEvent
unfolding latest_by_actor is_review_of
current_reviews events proposal_id =
    sort_stored_events (values (latest_by_actor (is_review_of proposal_id) [] events))

unfoldable pub is_result_of : String → StoredEvent → Bool
is_result_of request_id stored =
    stored.event.kind == "run.result" && stored.event.subject == request_id

-- `currentRunResults`
unfoldable pub current_run_results : List StoredEvent → String → List StoredEvent
unfolding latest_by_actor is_result_of
current_run_results events request_id =
    sort_stored_events (values (latest_by_actor (is_result_of request_id) [] events))
