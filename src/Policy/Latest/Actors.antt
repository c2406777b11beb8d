-- ===== src/Policy/Latest/Actors.antt =====
-- proposal.go: the actors of a list of facts, when facts are sorted or left out.
use hubnot.Prelude.{
  ◌≡◌, refl, arith, String, Bool, true, List, [], ◌∷◌, map, ◌==◌, eq_iff, if◌then◌else◌, select,
}
use hubnot.Prelude.Strings.{mem, distinct}
use hubnot.Prelude.Sort.{place, sort_by}
use hubnot.Event.{StoredEvent}
use hubnot.Event.Order.{earlier, sort_stored_events}

abbrev pub actors : List StoredEvent → List String
actors events = map (λ stored. stored.event.actor) events

mem-place :
    (a : String) (x : StoredEvent) (xs : List StoredEvent)
    → mem a (actors (place earlier x xs)) ≡ (if x.event.actor == a then true else mem a (actors xs))
unfolding place mem
mem-place a x [] = refl
mem-place a x (y ∷ ys) = ground (arith, mem-place a x ys)

pub mem-sort :
    (a : String) (xs : List StoredEvent)
    → mem a (actors (sort_stored_events xs)) ≡ mem a (actors xs)
unfolding sort_stored_events sort_by mem
mem-sort a [] = refl
mem-sort a (x ∷ xs) = ground (arith, mem-place a x (sort_by earlier xs), mem-sort a xs)

distinct-place :
    (x : StoredEvent) (xs : List StoredEvent)
    → distinct (actors (x ∷ xs)) ≡ true
    → distinct (actors (place earlier x xs)) ≡ true
unfolding place distinct mem
distinct-place x [] h = refl
distinct-place x (y ∷ ys) h = ground (
  arith,
  mem-place y.event.actor x ys,
  distinct-place x ys,
  eq_iff x.event.actor y.event.actor,
  eq_iff y.event.actor x.event.actor,
)

pub distinct-sort :
    (xs : List StoredEvent)
    → distinct (actors xs) ≡ true
    → distinct (actors (sort_stored_events xs)) ≡ true
unfolding sort_stored_events sort_by distinct
distinct-sort [] h = refl
distinct-sort (x ∷ xs) h =
    distinct-place x (sort_by earlier xs)
      (unfold distinct in ground (arith, mem-sort x.event.actor xs, distinct-sort xs))

pub mem-select :
    (a : String) (keep : StoredEvent → Bool) (xs : List StoredEvent)
    → mem a (actors (select keep xs)) ≡ true
    → mem a (actors xs) ≡ true
unfolding select mem
mem-select a keep [] h = h
mem-select a keep (x ∷ xs) h = ground (arith, mem-select a keep xs)

pub distinct-select :
    (keep : StoredEvent → Bool) (xs : List StoredEvent)
    → distinct (actors xs) ≡ true
    → distinct (actors (select keep xs)) ≡ true
unfolding select distinct
distinct-select keep [] h = refl
distinct-select keep (x ∷ xs) h =
    ground (arith, mem-select x.event.actor keep xs, distinct-select keep xs)
