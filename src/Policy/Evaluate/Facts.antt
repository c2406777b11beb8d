-- ===== src/Policy/Evaluate/Facts.antt =====
-- policy.go: the facts that an evaluation lists.
use hubnot.Prelude.{
  ◌≡◌, refl, ◌∙◌, arith, String, Bool, true, false, not, ◌&&◌, List, [], ◌∷◌, ◌==◌, eq_iff, eq_refl,
  All, All-map, some, Option-cases, Bool-cases, inl, inr, if◌then◌else◌, length, length-map, ◌≤◌,
  lt_int, ℤ, pos, negsuc, ℕ,
}
use hubnot.Prelude.Strings.{mem, distinct, Within, length-le-of_distinct}
use hubnot.Prelude.Maps.{Dict, lookup, values}
use hubnot.Prelude.Sort.{mem-sort_strings}
use hubnot.Event.{StoredEvent}
use hubnot.Policy.Latest.{latest_by_actor}
use hubnot.Policy.Latest.Actors.{actors}
use hubnot.Policy.Latest.Current.{
  IsKeyed, nil-IsKeyed, latest-IsKeyed, values-All, IsKeyed-distinct,
}
use hubnot.Policy.Protected.{unique_strings, sorted_unique_strings, add_actor, evidence_actors}
use hubnot.Policy.Admit.Gather.{mem-add_actor}
use hubnot.Policy.Evaluate.{ids}

-- A fact with an ID, which the map finds.
abbrev pub Known : Dict StoredEvent → StoredEvent → Type 0
Known by_id e = (lookup e.id by_id ≡ some e) × ((e.id == "") ≡ false)

mem_unique :
    (a : String) (seen values : List String)
    → mem a (unique_strings seen values) ≡ (not (a == "") && not (mem a seen) && mem a values)
unfolding unique_strings mem
mem_unique a seen [] = ground arith
mem_unique a seen (v ∷ values) =
    ground (arith, eq_iff v a, mem_unique a seen values, mem_unique a (v ∷ seen) values)

pub mem-sorted_unique :
    (a : String) (values : List String)
    → (a == "") ≡ false
    → mem a (sorted_unique_strings values) ≡ mem a values
unfolding sorted_unique_strings mem
mem-sorted_unique a values e =
    mem-sort_strings a (unique_strings [] values) ∙ ground (arith, mem_unique a [] values)

pub named-sorted_unique :
    (a : String) (values : List String)
    → mem a (sorted_unique_strings values) ≡ true
    → (a == "") ≡ false
unfolding sorted_unique_strings mem
named-sorted_unique a values m =
    ground (arith, mem-sort_strings a (unique_strings [] values), mem_unique a [] values)

pub Within-All :
    (xs : List StoredEvent) (set : List String)
    → All (λ v. mem v.event.actor set ≡ true) xs
    → Within (actors xs) set
unfolding mem
Within-All [] set all a m = absurd ground arith
Within-All (x ∷ xs) set all a m =
    ground (arith, eq_iff x.event.actor a, all.0, Within-All xs set all.1 a)

-- A set that has the actor of each of the facts, who are distinct, is no smaller.
pub enough :
    (xs : List StoredEvent) (set : List String)
    → distinct (actors xs) ≡ true
    → All (λ v. mem v.event.actor set ≡ true) xs
    → length xs ≤ length set
enough xs set d all = ground (
  arith,
  length-map (λ (e : StoredEvent). e.event.actor) xs,
  length-le-of_distinct (actors xs) set d (Within-All xs set all),
)

pub lt_int_mono : (m n : ℕ) (z : ℤ) → m ≤ n → lt_int m z ≡ false → lt_int n z ≡ false
lt_int_mono m n (pos k) le h = ground arith
lt_int_mono m n (negsuc k) le h = refl

-- A fact that the loop over the evidence counts is in the set at the end.
evidence-grows :
    (qualifies : StoredEvent → Bool) (by_id : Dict StoredEvent) (set evidence : List String)
    (a : String)
    → mem a set ≡ true
    → mem a (evidence_actors qualifies by_id set evidence) ≡ true
unfolding evidence_actors
evidence-grows qualifies by_id set [] a m = m
evidence-grows qualifies by_id set (id ∷ evidence) a m = elim (Option-cases (lookup id by_id)) [
  | inl n ↦ rw n (evidence-grows qualifies by_id set evidence a m)
  | inr (e, found) ↦ rw found (
      evidence-grows qualifies by_id (if qualifies e then add_actor e.event.actor set else set)
        evidence a (ground (arith, mem-add_actor a e.event.actor set)))
]

pub evidence-counts :
    (qualifies : StoredEvent → Bool) (by_id : Dict StoredEvent) (set evidence : List String)
    (e : StoredEvent)
    → mem e.id evidence ≡ true
    → lookup e.id by_id ≡ some e
    → qualifies e ≡ true
    → mem e.event.actor (evidence_actors qualifies by_id set evidence) ≡ true
unfolding evidence_actors mem
evidence-counts qualifies by_id set [] e m found q = absurd ground arith
evidence-counts qualifies by_id set (id ∷ evidence) e m found q = elim (Bool-cases (id == e.id)) [
  | inl same ↦
      let here : lookup id by_id ≡ some e = ground (arith, eq_iff id e.id) in
      rw (here, q)
        (evidence-grows qualifies by_id (add_actor e.event.actor set) evidence e.event.actor
          (ground (arith, eq_refl e.event.actor, mem-add_actor e.event.actor e.event.actor set)))
  | inr other ↦ elim (Option-cases (lookup id by_id)) [
    | inl n ↦ rw n (evidence-counts qualifies by_id set evidence e (ground arith) found q)
    | inr (d, there) ↦ rw there (
        evidence-counts qualifies by_id (if qualifies d then add_actor d.event.actor set else set)
          evidence e (ground arith) found q)
  ]
]

pub mem-ids : (xs : List StoredEvent) → All (λ e. mem e.id (ids xs) ≡ true) xs
unfolding mem
mem-ids [] = tt
mem-ids (x ∷ xs) = (
  ground (arith, eq_refl x.id),
  All-map (λ e. mem e.id (ids xs) ≡ true) (λ e. mem e.id (ids (x ∷ xs)) ≡ true)
      (λ e h. ground arith) xs (mem-ids xs),
)

module _ (P : StoredEvent → Type 0) (counts : StoredEvent → Bool) (events : List StoredEvent)
    (all : All (λ e. counts e ≡ true → P e) events) where
  keyed : IsKeyed P (latest_by_actor counts [] events)
  keyed = latest-IsKeyed P counts [] events all (nil-IsKeyed P)

  pub latest-All : All P (values (latest_by_actor counts [] events))
  latest-All = values-All P (latest_by_actor counts [] events) keyed.each

  pub latest-distinct : distinct (actors (values (latest_by_actor counts [] events))) ≡ true
  latest-distinct = IsKeyed-distinct P (latest_by_actor counts [] events) keyed
