-- ===== src/Event/Order.antt =====
-- proposal.go: the presentation order of stored events, by timestamp and then by ID.
use hubnot.Prelude.{Bool, List, ◌==◌, not, if◌then◌else◌}
use hubnot.Prelude.Strings.{str_ltb}
use hubnot.Prelude.Sort.{sort_by}
use hubnot.Event.{StoredEvent}

unfoldable pub earlier : StoredEvent → StoredEvent → Bool
earlier a b =
    if not (a.event.timestamp == b.event.timestamp)
    then str_ltb a.event.timestamp b.event.timestamp
    else str_ltb a.id b.id

unfoldable pub sort_stored_events : List StoredEvent → List StoredEvent
unfolding earlier
sort_stored_events events = sort_by earlier events
