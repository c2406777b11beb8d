-- ===== src/Policy/Latest/Current.antt =====
-- proposal.go and ci.go: what the map of the latest facts holds.
use hubnot.Prelude.{
  ◌≡◌, refl, arith, String, Bool, true, List, [], ◌∷◌, ◌==◌, eq_iff, if◌then◌else◌, All, some,
  Bool-cases, inl, inr, ◌≤◌, ltb, ℕ, Option-cases, eq_refl,
}
use hubnot.Prelude.Strings.{distinct}
use hubnot.Prelude.Maps.{Dict, keys, values, lookup, distinct-insert, All-insert, lookup-insert}
use hubnot.Event.{StoredEvent}
use hubnot.Policy.Latest.{note_latest, latest_by_actor, newer}
use hubnot.Policy.Latest.Actors.{actors}

-- A map from actors to a fact of theirs.
pub record IsKeyed {ℓ} (P : StoredEvent → Type ℓ) (m : Dict StoredEvent) : Type ℓ where
  pub once : distinct (keys m) ≡ true
  pub each : All (λ entry. (entry.1.event.actor ≡ entry.0) × P entry.1) m

pub nil-IsKeyed {ℓ} : (P : StoredEvent → Type ℓ) → IsKeyed P []
unfolding distinct
nil-IsKeyed P = record { once = refl; each = tt }

note_latest-IsKeyed {ℓ} :
    (P : StoredEvent → Type ℓ) (m : Dict StoredEvent) (stored : StoredEvent)
    → P stored
    → IsKeyed P m
    → IsKeyed P (note_latest m stored)
unfolding note_latest
note_latest-IsKeyed P m stored p k =
    elim (Bool-cases (newer stored (lookup stored.event.actor m))) [
      | inl t ↦ rw t (record {
        once = distinct-insert stored.event.actor stored m k.once;
        each =
            All-insert (λ entry. (entry.1.event.actor ≡ entry.0) × P entry.1) stored.event.actor
              stored m (refl, p) k.each;
      })
      | inr f ↦ rw f k
    ]

pub latest-IsKeyed {ℓ} :
    (P : StoredEvent → Type ℓ) (counts : StoredEvent → Bool) (m : Dict StoredEvent)
    (events : List StoredEvent)
    → All (λ e. counts e ≡ true → P e) events
    → IsKeyed P m
    → IsKeyed P (latest_by_actor counts m events)
unfolding latest_by_actor
latest-IsKeyed P counts m [] all k = k
latest-IsKeyed P counts m (e ∷ events) all k =
    latest-IsKeyed P counts (if counts e then note_latest m e else m) events all.1
      (elim (Bool-cases (counts e)) [
        | inl t ↦ rw t (note_latest-IsKeyed P m e (all.0 t) k)
        | inr f ↦ rw f k
      ])

pub values-actors {ℓ} :
    (P : StoredEvent → Type ℓ) (m : Dict StoredEvent)
    → All (λ entry. (entry.1.event.actor ≡ entry.0) × P entry.1) m
    → actors (values m) ≡ keys m
values-actors P [] all = refl
values-actors P ((k, v) ∷ m) all = rw (all.0.0, values-actors P m all.1)

pub values-All {ℓ} :
    (P : StoredEvent → Type ℓ) (m : Dict StoredEvent)
    → All (λ entry. (entry.1.event.actor ≡ entry.0) × P entry.1) m
    → All P (values m)
values-All P [] all = tt
values-All P ((k, v) ∷ m) all = (all.0.1, values-All P m all.1)

pub IsKeyed-distinct {ℓ} :
    (P : StoredEvent → Type ℓ) (m : Dict StoredEvent)
    → IsKeyed P m
    → distinct (actors (values m)) ≡ true
IsKeyed-distinct P m k = rw (values-actors P m k.each) k.once

-- The map holds a fact of the actor that is no earlier than the sequence number.
abbrev pub HoldsFrom : Dict StoredEvent → String → ℕ → Type 0
HoldsFrom m actor n = (v : StoredEvent) × (lookup actor m ≡ some v) × (n ≤ v.event.sequence)

note_latest-grows :
    (m : Dict StoredEvent) (stored : StoredEvent) (actor : String) (n : ℕ)
    → HoldsFrom m actor n
    → HoldsFrom (note_latest m stored) actor n
unfolding note_latest
note_latest-grows m stored actor n (v, found, le) =
    elim (Bool-cases (newer stored (lookup stored.event.actor m))) [
      | inl t ↦ elim (Bool-cases (stored.event.actor == actor)) [
        | inl same ↦ (
          stored,
          ground (arith, lookup-insert stored.event.actor actor stored m),
          ground (arith, eq_iff stored.event.actor actor),
        )
        | inr other ↦ (v, ground (arith, lookup-insert stored.event.actor actor stored m), le)
      ]
      | inr f ↦ (v, ground arith, le)
    ]

note_latest-holds :
    (m : Dict StoredEvent) (stored : StoredEvent)
    → HoldsFrom (note_latest m stored) stored.event.actor stored.event.sequence
unfolding note_latest
note_latest-holds m stored = elim (Option-cases (lookup stored.event.actor m)) [
  | inl n ↦ (
    stored,
    ground (
      arith,
      eq_refl stored.event.actor,
      lookup-insert stored.event.actor stored.event.actor stored m,
    ),
    omega arith,
  )
  | inr (v, found) ↦ elim (Bool-cases (ltb v.event.sequence stored.event.sequence)) [
    | inl t ↦ (
      stored,
      ground (
        arith,
        eq_refl stored.event.actor,
        lookup-insert stored.event.actor stored.event.actor stored m,
      ),
      omega arith,
    )
    | inr f ↦ (v, ground arith, ground arith)
  ]
]

latest-grows :
    (counts : StoredEvent → Bool) (m : Dict StoredEvent) (events : List StoredEvent)
    (actor : String) (n : ℕ)
    → HoldsFrom m actor n
    → HoldsFrom (latest_by_actor counts m events) actor n
unfolding latest_by_actor
latest-grows counts m [] actor n h = h
latest-grows counts m (e ∷ events) actor n h =
    latest-grows counts (if counts e then note_latest m e else m) events actor n
      (elim (Bool-cases (counts e)) [
        | inl t ↦ rw t (note_latest-grows m e actor n h)
        | inr f ↦ rw f h
      ])

-- For each fact that counts, the map ends with a fact of the same actor that is no earlier.
pub latest-holds :
    (counts : StoredEvent → Bool) (m : Dict StoredEvent) (events : List StoredEvent)
    → All
        (λ e.
          counts e ≡ true
          → HoldsFrom (latest_by_actor counts m events) e.event.actor e.event.sequence)
        events
unfolding latest_by_actor
latest-holds counts m [] = tt
latest-holds counts m (e ∷ events) = (
  λ t. rw t (
      latest-grows counts (note_latest m e) events e.event.actor e.event.sequence
        (note_latest-holds m e)),
  latest-holds counts (if counts e then note_latest m e else m) events,
)
