-- ===== src/Store/Chains.antt =====
-- store.go: about `validateActorChains`.
use hubnot.Prelude.{
  ◌≡◌, refl, ◌∙◌, ap, sym, arith, ℕ, suc, String, Bool, true, false, List, [], ◌∷◌, ◌++◌, Option,
  none, some, ◌==◌, eq_iff, eq_refl, ok, select, Bool-cases, inl, inr, ◌↔◌, if◌then◌else◌,
  >>=-eq-ok,
}
use mathlib.Core.Path.{subst}
use mathlib.Core.List.{append-nil}
use hubnot.Prelude.Strings.{mem, distinct}
use hubnot.Prelude.Maps.{Dict, push, slices, slices-push, slices-nil, keys}
use hubnot.Prelude.Sort.{sort_by}
use hubnot.Event.{StoredEvent}
use hubnot.Store.{
  collect_chains, by_sequence, forks, id_of, check_chain, check_chains, validate_actor_chains,
}

-- The events are numbered from `index` + 1 on, and each names the one before.
pub data IsChain : ℕ → String → List StoredEvent → Type 0 where
  end : {index : ℕ} {previous : String} → IsChain index previous []
  next :
      {index : ℕ} {previous : String} {chain : List StoredEvent} (s : StoredEvent)
      → s.event.sequence ≡ suc index
      → s.event.previous ≡ previous
      → IsChain (suc index) s.id chain
      → IsChain index previous (s ∷ chain)

check_chain-IsChain :
    (actor : String) (index : ℕ) (previous : Option StoredEvent) (chain : List StoredEvent)
    → check_chain actor index previous chain ≡ ok tt
    → IsChain index (id_of previous) chain
unfolding check_chain
check_chain-IsChain actor index previous [] run = IsChain.end
check_chain-IsChain actor index previous (s ∷ chain) run =
    IsChain.next s (ground arith) (ground (arith, eq_iff s.event.previous (id_of previous)))
      (check_chain-IsChain actor (suc index) (some s) chain (ground arith))

-- The event before is numbered `index`.
abbrev Numbered : ℕ → Option StoredEvent → Type 0
Numbered index none = Unit
Numbered index (some previous) = previous.event.sequence ≡ index

no_conflict :
    (index : ℕ) (previous : Option StoredEvent) (s : StoredEvent)
    → Numbered index previous
    → s.event.sequence ≡ suc index
    → forks previous s ≡ false
unfolding forks
no_conflict index none s n e = refl
no_conflict index (some previous) s n e = ground arith

IsChain-check_chain :
    (actor : String) (index : ℕ) (previous : Option StoredEvent) (chain : List StoredEvent)
    → Numbered index previous
    → IsChain index (id_of previous) chain
    → check_chain actor index previous chain ≡ ok tt
unfolding check_chain
IsChain-check_chain actor index previous [] n IsChain.end = refl
IsChain-check_chain actor index previous (s ∷ chain) n (IsChain.next _ number link rest) = ground (
  arith,
  no_conflict index previous s n number,
  eq_iff s.event.previous (id_of previous),
  IsChain-check_chain actor (suc index) (some s) chain number rest,
)

-- The chain that the map has for an actor.
abbrev chain_of : String → Dict (List StoredEvent) → List StoredEvent
chain_of actor by_actor = sort_by by_sequence (slices actor by_actor)

check_chains-IsChain :
    (by_actor : Dict (List StoredEvent))
    → check_chains by_actor ≡ ok tt
    → (actor : String) → IsChain 0 "" (chain_of actor by_actor)
unfolding check_chains slices sort_by
check_chains-IsChain [] run actor = IsChain.end
check_chains-IsChain ((k, chain) ∷ by_actor) run actor =
    let (u, first, rest) = >>=-eq-ok (check_chain k 0 none (sort_by by_sequence chain)) _ run in
    elim (Bool-cases (k == actor)) [
      | inl same ↦ rw same (check_chain-IsChain k 0 none (sort_by by_sequence chain) first)
      | inr other ↦ rw other (check_chains-IsChain by_actor rest actor)
    ]

slices_absent :
    (actor : String) (by_actor : Dict (List StoredEvent))
    → mem actor (keys by_actor) ≡ false
    → slices actor by_actor ≡ []
unfolding slices mem
slices_absent actor [] absent = refl
slices_absent actor ((k, chain) ∷ by_actor) absent = ground (arith, slices_absent actor by_actor)

IsChain-check_chains :
    (by_actor : Dict (List StoredEvent))
    → distinct (keys by_actor) ≡ true
    → ((actor : String) → IsChain 0 "" (chain_of actor by_actor))
    → check_chains by_actor ≡ ok tt
unfolding check_chains distinct
IsChain-check_chains [] once chains = refl
IsChain-check_chains ((k, chain) ∷ by_actor) once chains =
    let own : slices k ((k, chain) ∷ by_actor) ≡ chain = unfold slices in rw (eq_refl k) refl in
    let first =
      IsChain-check_chain k 0 none (sort_by by_sequence chain) tt
        (subst (λ c. IsChain 0 "" (sort_by by_sequence c)) own (chains k)) in
    rw first (
      IsChain-check_chains by_actor (ground arith) (λ actor. elim (Bool-cases (k == actor)) [
        | inl same ↦
            let e : k ≡ actor = ground (arith, eq_iff k actor) in
            let gone : slices actor by_actor ≡ [] =
              slices_absent actor by_actor
                (ap (λ a. mem a (keys by_actor)) (sym e) ∙ ground arith) in
            subst (λ c. IsChain 0 "" (sort_by by_sequence c)) (sym gone)
              (unfold sort_by in IsChain.end)
        | inr other ↦
            let further : slices actor ((k, chain) ∷ by_actor) ≡ slices actor by_actor =
              unfold slices in rw other refl in
            subst (λ c. IsChain 0 "" (sort_by by_sequence c)) further (chains actor)
      ]))

-- The events of an actor.
abbrev pub by : String → StoredEvent → Bool
by actor s = s.event.actor == actor

append_snoc :
    (xs : List StoredEvent) (s : StoredEvent) (ys : List StoredEvent)
    → (xs ++ s ∷ []) ++ ys ≡ xs ++ s ∷ ys
append_snoc [] s ys = refl
append_snoc (x ∷ xs) s ys = ap (λ zs. x ∷ zs) (append_snoc xs s ys)

collect-slices :
    (actor : String) (by_actor : Dict (List StoredEvent)) (events : List StoredEvent)
    → slices actor (collect_chains by_actor events)
      ≡ slices actor by_actor ++ select (by actor) events
unfolding collect_chains select
collect-slices actor by_actor [] = sym (append-nil (slices actor by_actor))
collect-slices actor by_actor (s ∷ events) =
    collect-slices actor (push s.event.actor s by_actor) events
    ∙ ap (λ first. first ++ select (by actor) events) (slices-push s.event.actor actor s by_actor)
    ∙ elim (Bool-cases (s.event.actor == actor)) [
      | inl own ↦ rw own (append_snoc (slices actor by_actor) s (select (by actor) events))
      | inr other ↦ rw other refl
    ]

mem-keys-push :
    (k j : String) (s : StoredEvent) (m : Dict (List StoredEvent))
    → mem j (keys (push k s m)) ≡ (if k == j then true else mem j (keys m))
unfolding push mem
mem-keys-push k j s [] = refl
mem-keys-push k j s ((i, chain) ∷ m) =
    ground (arith, eq_iff k j, eq_iff i k, eq_iff i j, mem-keys-push k j s m)

distinct-push :
    (k : String) (s : StoredEvent) (m : Dict (List StoredEvent))
    → distinct (keys m) ≡ true
    → distinct (keys (push k s m)) ≡ true
unfolding push distinct mem
distinct-push k s [] once = refl
distinct-push k s ((i, chain) ∷ m) once =
    ground (arith, eq_iff i k, eq_iff k i, mem-keys-push k i s m, distinct-push k s m)

collect-distinct :
    (by_actor : Dict (List StoredEvent)) (events : List StoredEvent)
    → distinct (keys by_actor) ≡ true
    → distinct (keys (collect_chains by_actor events)) ≡ true
unfolding collect_chains
collect-distinct by_actor [] once = once
collect-distinct by_actor (s ∷ events) once =
    collect-distinct (push s.event.actor s by_actor) events
      (distinct-push s.event.actor s by_actor once)

-- `validateActorChains` accepts exactly the events of which each actor's, sorted by their sequence
-- numbers, are numbered from 1 on without a gap or a fork and each name the one before.
pub validate_actor_chains_iff :
    (events : List StoredEvent)
    → (validate_actor_chains events ≡ ok tt)
      ↔ ((actor : String) → IsChain 0 "" (sort_by by_sequence (select (by actor) events)))
unfolding validate_actor_chains
validate_actor_chains_iff events =
    let chain = λ (actor : String).
      collect-slices actor [] events
      ∙ ap (λ first. first ++ select (by actor) events) (slices-nil {A = StoredEvent} actor) in
    (
      λ run actor.
          subst (λ c. IsChain 0 "" (sort_by by_sequence c)) (chain actor)
            (check_chains-IsChain (collect_chains [] events) run actor),
      λ chains.
          IsChain-check_chains (collect_chains [] events)
            (collect-distinct [] events (unfold distinct in refl))
            (λ actor.
              subst (λ c. IsChain 0 "" (sort_by by_sequence c)) (sym (chain actor)) (chains actor)),
    )
