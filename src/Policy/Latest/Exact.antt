-- ===== src/Policy/Latest/Exact.antt =====
-- proposal.go and ci.go: about `currentReviews` and `currentRunResults`.
use hubnot.Prelude.{
  ◌≡◌, ◌∙◌, arith, String, Bool, true, List, [], ◌∷◌, All, All-map, All-Mem, some, ◌≤◌,
}
use mathlib.Core.List.{Mem}
use hubnot.Prelude.Strings.{mem, distinct}
use hubnot.Prelude.Maps.{Dict, values, lookup, present-lookup, lookup_entries}
use hubnot.Prelude.Sort.{All-sort_by}
use hubnot.Event.{StoredEvent}
use hubnot.Event.Order.{sort_stored_events, earlier}
use hubnot.Policy.Latest.{
  latest_by_actor, is_review_of, current_reviews, is_result_of, current_run_results,
}
use hubnot.Policy.Latest.Actors.{actors, mem-sort, distinct-sort}
use hubnot.Policy.Latest.Current.{
  IsKeyed, nil-IsKeyed, latest-IsKeyed, latest-holds, values-actors, values-All, HoldsFrom,
}

-- The listed facts `current` are what the facts `events` that count leave in force.
pub record IsCurrent (counts : StoredEvent → Bool) (events current : List StoredEvent)
    : Type 0 where
  pub one_each : distinct (actors current) ≡ true
  pub all_count : All (λ v. counts v ≡ true) current
  pub drawn : All (λ v. Mem v events) current
  pub none_missing : All (λ e. counts e ≡ true → mem e.event.actor (actors current) ≡ true) events
  pub latest :
      All
        (λ v.
          All
            (λ e.
              counts e ≡ true → e.event.actor ≡ v.event.actor → e.event.sequence ≤ v.event.sequence)
            events)
        current

module _ (counts : StoredEvent → Bool) (events : List StoredEvent) where
  abbrev final : Dict StoredEvent
  final = latest_by_actor counts [] events

  -- The fact counts, and is one of the events.
  abbrev Listed : StoredEvent → Type 0
  Listed v = (counts v ≡ true) × Mem v events

  keyed : IsKeyed Listed final
  keyed =
      latest-IsKeyed Listed counts [] events
        (All-map (λ e. Mem e events) (λ e. counts e ≡ true → Listed e) (λ e m c. (c, m)) events
          (All-Mem events))
        (nil-IsKeyed Listed)

  abbrev Held : List StoredEvent → Type 0
  Held es = All (λ e. counts e ≡ true → HoldsFrom final e.event.actor e.event.sequence) es

  later :
      (k : String) (v : StoredEvent) (es : List StoredEvent)
      → lookup k final ≡ some v
      → v.event.actor ≡ k
      → Held es
      → All
          (λ e.
            counts e ≡ true → e.event.actor ≡ v.event.actor → e.event.sequence ≤ v.event.sequence)
          es
  later k v [] found key held = tt
  later k v (e ∷ es) found key held =
      (λ c same. let (w, there, le) = held.0 c in ground arith, later k v es found key held.1)

  all_later :
      (m : Dict StoredEvent)
      → All (λ entry. lookup entry.0 final ≡ some entry.1) m
      → All (λ entry. (entry.1.event.actor ≡ entry.0) × Listed entry.1) m
      → All
          (λ v.
            All
              (λ e.
                counts e ≡ true
                → e.event.actor ≡ v.event.actor
                → e.event.sequence ≤ v.event.sequence)
              events)
          (values m)
  all_later [] found each = tt
  all_later ((k, v) ∷ m) found each = (
    later k v events found.0 each.0.0 (latest-holds counts [] events),
    all_later m found.1 each.1,
  )

  listed :
      (es : List StoredEvent)
      → Held es
      → All
          (λ e.
            counts e ≡ true → mem e.event.actor (actors (sort_stored_events (values final))) ≡ true)
          es
  listed [] held = tt
  listed (e ∷ es) held = (
    λ c.
        let (v, there, le) = held.0 c in
        mem-sort e.event.actor (values final)
        ∙ rw (values-actors Listed final keyed.each)
            (ground (arith, present-lookup e.event.actor final)),
    listed es held.1,
  )

  kept : All Listed (sort_stored_events (values final))
  unfolding sort_stored_events
  kept = All-sort_by earlier Listed (values final) (values-All Listed final keyed.each)

  pub latest-IsCurrent : IsCurrent counts events (sort_stored_events (values final))
  unfolding sort_stored_events
  latest-IsCurrent = record {
    one_each = distinct-sort (values final) (rw (values-actors Listed final keyed.each) keyed.once);
    all_count =
        All-map Listed (λ v. counts v ≡ true) (λ v h. h.0) (sort_stored_events (values final)) kept;
    drawn =
        All-map Listed (λ v. Mem v events) (λ v h. h.1) (sort_stored_events (values final)) kept;
    none_missing = listed events (latest-holds counts [] events);
    latest =
        All-sort_by earlier
          (λ v.
            All
              (λ e.
                counts e ≡ true
                → e.event.actor ≡ v.event.actor
                → e.event.sequence ≤ v.event.sequence)
              events)
          (values final) (all_later final (lookup_entries final keyed.once) keyed.each);
  }

-- `currentReviews` lists one review of each actor who reviewed the proposal: one of the events, with the
-- highest sequence number of the actor's reviews; and nothing else.
pub current_reviews-IsCurrent :
    (events : List StoredEvent) (proposal_id : String)
    → IsCurrent (is_review_of proposal_id) events (current_reviews events proposal_id)
unfolding current_reviews
current_reviews-IsCurrent events proposal_id = latest-IsCurrent (is_review_of proposal_id) events

-- `currentRunResults` lists one result of each actor who ran the request: one of the events, with the
-- highest sequence number of the actor's results; and nothing else.
pub current_run_results-IsCurrent :
    (events : List StoredEvent) (request_id : String)
    → IsCurrent (is_result_of request_id) events (current_run_results events request_id)
unfolding current_run_results
current_run_results-IsCurrent events request_id = latest-IsCurrent (is_result_of request_id) events
