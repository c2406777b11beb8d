-- ===== src/Policy/Admit/Gather.antt =====
-- policy.go: what the loop over a decision's evidence collects.
use hubnot.Prelude.{
  ◌≡◌, refl, arith, String, true, false, List, [], ◌∷◌, ◌==◌, eq_iff, eq_refl, All, some,
  Option-cases, Bool-cases, inl, inr, ok, if◌then◌else◌,
}
use hubnot.Prelude.Strings.{mem}
use hubnot.Prelude.Maps.{Dict, lookup, insert, slices}
use hubnot.Event.{StoredEvent}
use hubnot.Policy.Document.{PolicyDocument}
use hubnot.Policy.Protected.{add_actor}
use hubnot.Policy.Admit.{
  Gathered, add_runner, approval_counts, request_counts, definition_counts, runner_counts,
  note_result, gather_one, gather,
}

pub mem-add_actor :
    (a b : String) (xs : List String) → mem a (add_actor b xs) ≡ (if b == a then true else mem a xs)
unfolding add_actor mem
mem-add_actor a b xs = ground (arith, eq_iff b a)

slices-insert :
    (set get : String) (value : List String) (table : Dict (List String))
    → slices get (insert set value table) ≡ (if set == get then value else slices get table)
unfolding insert slices
slices-insert set get value [] = refl
slices-insert set get value ((first, held) ∷ table) =
    ground
      (arith, eq_iff first get, eq_iff first set, eq_iff set get, slices-insert set get value table)

mem-add_runner :
    (a name b actor : String) (m : Dict (List String))
    → mem a (slices name (add_runner b actor m)) ≡ (
        if b == name
        then (if actor == a then true else mem a (slices name m))
        else mem a (slices name m))
unfolding add_runner
mem-add_runner a name b actor m = ground (
  arith,
  eq_iff b name,
  slices-insert b name (add_actor actor (slices b m)) m,
  mem-add_actor a actor (slices b m),
)

-- A result is no review.
other_kind :
    (e : StoredEvent)
    → (e.event.kind == "run.result") ≡ true
    → (e.event.kind == "review.submit") ≡ false
other_kind e kind =
    let same : e.event.kind ≡ "run.result" = ground (arith, eq_iff e.event.kind "run.result") in
    rw same refl

-- One set of actors within another.
pub record Grows (g h : Gathered) : Type 0 where
  pub approvers_kept : (a : String) → mem a g.approvers ≡ true → mem a h.approvers ≡ true
  pub runners_kept :
      (name a : String)
      → mem a (slices name g.runners) ≡ true
      → mem a (slices name h.runners) ≡ true

module _ (policy : PolicyDocument) (definitions : Dict String) (proposal : StoredEvent)
    (by_id : Dict StoredEvent) where
  gather_one-Grows :
      (e : StoredEvent) (g : Gathered) → Grows g (gather_one policy definitions proposal by_id e g)
  unfolding gather_one note_result
  gather_one-Grows e g = record {
    approvers_kept = λ a m. ground (arith, mem-add_actor a e.event.actor g.approvers);
    runners_kept = λ name a m. elim (Option-cases (lookup e.event.subject by_id)) [
      | inl n ↦ ground arith
      | inr (r, found) ↦
          ground (arith, mem-add_runner a name r.event.pipeline e.event.actor g.runners)
    ];
  }

  pub gather-Grows :
      (decision : String) (evidence : List String) (g : Gathered) {h : Gathered}
      → gather policy definitions proposal by_id decision evidence g ≡ ok h
      → Grows g h
  unfolding gather
  gather-Grows decision [] g run = record {
    approvers_kept = λ a m. ground arith;
    runners_kept = λ name a m. ground arith;
  }
  gather-Grows decision (id ∷ evidence) g {h} run = elim (Option-cases (lookup id by_id)) [
    | inl n ↦ absurd ground arith
    | inr (e, found) ↦
        let first = gather_one-Grows e g in
        let rest =
          gather-Grows decision evidence (gather_one policy definitions proposal by_id e g)
            (ground arith) in
        record {
          approvers_kept = λ a m. rest.approvers_kept a (first.approvers_kept a m);
          runners_kept = λ name a m. rest.runners_kept name a (first.runners_kept name a m);
        }
  ]

  -- The loop passes when all the evidence is available.
  pub gather_passes :
      (decision : String) (evidence : List String) (g : Gathered)
      → All (λ id. (e : StoredEvent) × (lookup id by_id ≡ some e)) evidence
      → (h : Gathered) × (gather policy definitions proposal by_id decision evidence g ≡ ok h)
  unfolding gather
  gather_passes decision [] g all = (g, refl)
  gather_passes decision (id ∷ evidence) g all =
      let (e, found) = all.0 in
      let (h, run) =
        gather_passes decision evidence (gather_one policy definitions proposal by_id e g) all.1 in
      (h, rw (gather, found) run)

  -- What counts is in the set at the end.
  pub gather_approver :
      (decision : String) (evidence : List String) (g : Gathered) {h : Gathered} (e : StoredEvent)
      → gather policy definitions proposal by_id decision evidence g ≡ ok h
      → mem e.id evidence ≡ true
      → lookup e.id by_id ≡ some e
      → approval_counts policy proposal e ≡ true
      → mem e.event.actor h.approvers ≡ true
  unfolding gather gather_one approval_counts mem
  gather_approver decision [] g e run m found counts = absurd ground arith
  gather_approver decision (id ∷ evidence) g {h} e run m found counts =
      elim (Bool-cases (id == e.id)) [
        | inl same ↦
            let here : lookup id by_id ≡ some e = ground (arith, eq_iff id e.id) in
            (gather-Grows decision evidence (gather_one policy definitions proposal by_id e g)
                {h = h} (ground arith)).approvers_kept
              e.event.actor
              (ground (
                arith,
                mem-add_actor e.event.actor e.event.actor g.approvers,
                eq_refl e.event.actor,
              ))
        | inr other ↦ elim (Option-cases (lookup id by_id)) [
          | inl n ↦ absurd ground arith
          | inr (d, there) ↦
              gather_approver decision evidence (gather_one policy definitions proposal by_id d g)
                {h = h} e (ground arith) (ground arith) found counts
        ]
      ]

  pub gather_runner :
      (decision : String) (evidence : List String) (g : Gathered) {h : Gathered}
      (e request : StoredEvent)
      → gather policy definitions proposal by_id decision evidence g ≡ ok h
      → mem e.id evidence ≡ true
      → lookup e.id by_id ≡ some e
      → lookup e.event.subject by_id ≡ some request
      → (e.event.kind == "run.result") ≡ true
      → (e.event.outcome == "passed") ≡ true
      → request_counts policy proposal request ≡ true
      → runner_counts policy request e ≡ true
      → definition_counts definitions request ≡ true
      → mem e.event.actor (slices request.event.pipeline h.runners) ≡ true
  unfolding gather gather_one note_result mem
  gather_runner decision [] g e request run m found asked kind passed rc uc dc = absurd ground arith
  gather_runner decision (id ∷ evidence) g {h} e request run m found asked kind passed rc uc dc =
      elim (Bool-cases (id == e.id)) [
        | inl same ↦
            let here : lookup id by_id ≡ some e = ground (arith, eq_iff id e.id) in
            (gather-Grows decision evidence (gather_one policy definitions proposal by_id e g)
                {h = h} (ground arith)).runners_kept
              request.event.pipeline e.event.actor
              (ground (
                arith,
                other_kind e kind,
                mem-add_runner e.event.actor request.event.pipeline request.event.pipeline
                    e.event.actor g.runners,
                eq_refl e.event.actor,
                eq_refl request.event.pipeline,
              ))
        | inr other ↦ elim (Option-cases (lookup id by_id)) [
          | inl n ↦ absurd ground arith
          | inr (d, there) ↦
              gather_runner decision evidence (gather_one policy definitions proposal by_id d g)
                {h = h} e request (ground arith) (ground arith) found asked kind passed rc uc dc
        ]
      ]
