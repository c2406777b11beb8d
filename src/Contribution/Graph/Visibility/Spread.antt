-- ===== src/Contribution/Graph/Visibility/Spread.antt =====
-- internal/contribution/model.go: how what is not visible spreads.
use hubnot.Prelude.{
  ℕ, zero, suc, ◌+◌, ◌≤◌, ◌<◌, ◌≡◌, ◌⊎◌, refl, Bool, true, false, String, List, [], ◌∷◌, ◌++◌, ok,
  arith, length, length-append, ◌==◌, eq_iff, if◌then◌else◌, Bool-cases, inl, inr,
}
use hubnot.Prelude.Strings.{mem, mem-append, mem-cons_self}
use hubnot.Prelude.Maps.{Dict, lookup, insert, lookup-insert, slices}
use hubnot.Contribution.Graph.Visibility.{sees, darken, propagate}

pub sees-insert :
    (k j : String) (b : Bool) (v : Dict Bool)
    → sees j (insert k b v) ≡ (if k == j then b else sees j v)
unfolding sees
sees-insert k j b v = ground (arith, lookup-insert k j b v)

abbrev trues : Dict Bool → ℕ
trues [] = 0
trues ((k, b) ∷ v) = if b then suc (trues v) else trues v

trues-le : (v : Dict Bool) → trues v ≤ length v
trues-le [] = omega arith
trues-le ((k, true) ∷ v) = omega (arith, trues-le v)
trues-le ((k, false) ∷ v) = omega (arith, trues-le v)

trues-insert :
    (k : String) (v : Dict Bool) → sees k v ≡ true → suc (trues (insert k false v)) ≡ trues v
unfolding sees insert lookup
trues-insert k [] h = ground (arith, h)
trues-insert k ((j, true) ∷ v) h = ground (arith, h, trues-insert k v)
trues-insert k ((j, false) ∷ v) h = ground (arith, h, trues-insert k v)

-- What the inner loop leaves.
record Darkened (ks : List String) (visible : Dict Bool) (queue : List String)
    (after : Dict Bool × List String) : Type 0 where
  counts : length after.1 + trues after.0 ≡ length queue + trues visible
  dims : (d : String) → mem d ks ≡ true → sees d after.0 ≡ false
  shrinks : (d : String) → sees d visible ≡ false → sees d after.0 ≡ false
  blames :
      (d : String)
      → sees d after.0 ≡ false
      → (sees d visible ≡ false) ⊎ ((mem d after.1 ≡ true) × (mem d ks ≡ true))
  keeps : (d : String) → mem d queue ≡ true → mem d after.1 ≡ true
  queues : (d : String) → mem d after.1 ≡ true → (mem d queue ≡ true) ⊎ (mem d ks ≡ true)

darken-Darkened :
    (ks : List String) (visible : Dict Bool) (queue : List String)
    → Darkened ks visible queue (darken ks (visible, queue))
unfolding darken mem
darken-Darkened [] visible queue = record {
  counts = refl;
  dims = λ d m. absurd cc;
  shrinks = λ d e. e;
  blames = λ d e. inl e;
  keeps = λ d m. m;
  queues = λ d m. inl m;
}
darken-Darkened (k ∷ ks) visible queue = elim (Bool-cases (sees k visible)) [
  | inl lit ↦
      let next = insert k false visible in
      let rest = darken-Darkened ks next (queue ++ k ∷ []) in
      rw (lit, darken)
        (record {
          counts =
              omega (arith, rest.counts, length-append queue (k ∷ []), trues-insert k visible lit);
          dims = λ d m.
              ground
                (arith, eq_iff k d, rest.dims d, rest.shrinks d, sees-insert k d false visible, m);
          shrinks = λ d e. rest.shrinks d (ground (arith, sees-insert k d false visible, e));
          blames = λ d e. elim (Bool-cases (k == d)) [
            | inl same ↦
                let waits =
                  rest.keeps d
                    (ground (arith, mem-append d queue (k ∷ []), mem-cons_self k [], eq_iff k d)) in
                inr (waits, ground (arith, same))
            | inr other ↦ ground (arith, rest.blames d e, sees-insert k d false visible, other)
          ];
          keeps = λ d m. rest.keeps d (ground (arith, mem-append d queue (k ∷ []), m));
          queues = λ d m. ground (arith, rest.queues d m, mem-append d queue (k ∷ []));
        })
  | inr dark ↦
      let rest = darken-Darkened ks visible queue in
      rw (dark, darken)
        (record {
          counts = rest.counts;
          dims = λ d m. ground (arith, eq_iff k d, rest.dims d, rest.shrinks k dark);
          shrinks = rest.shrinks;
          blames = λ d e. ground (arith, rest.blames d e);
          keeps = rest.keeps;
          queues = λ d m. ground (arith, rest.queues d m);
        })
]

module _ (reverse : Dict (List String)) where
  -- Nothing that depends on the key is visible.
  abbrev pub Dark : Dict Bool → String → Type 0
  Dark visible k = (d : String) → mem d (slices k reverse) ≡ true → sees d visible ≡ false

  -- What the queue holds is not visible, and what is not visible is in the queue or was dealt with.
  pub record Pending (visible : Dict Bool) (queue : List String) : Type 0 where
    pub dealt : (k : String) → sees k visible ≡ false → (mem k queue ≡ true) ⊎ Dark visible k
    pub waiting : (k : String) → mem k queue ≡ true → sees k visible ≡ false

  -- What the outer loop leaves: the largest part of what was visible that is closed.
  pub record Spread (visible after : Dict Bool) : Type 1 where
    pub closed : (k : String) → sees k after ≡ false → Dark after k
    pub shrinks : (k : String) → sees k visible ≡ false → sees k after ≡ false
    pub largest :
        (S : String → Type 0)
        → ((k d : String) → mem d (slices k reverse) ≡ true → S d → S k)
        → ((k : String) → S k → sees k visible ≡ true)
        → (k : String) → S k
        → sees k after ≡ true

  step-Pending :
      (k : String) (queue : List String) (visible : Dict Bool) (after : Dict Bool × List String)
      → Pending visible (k ∷ queue)
      → Darkened (slices k reverse) visible queue after
      → Pending after.0 after.1
  step-Pending k queue visible after p d = record {
    dealt = λ j e. elim (d.blames j e) [
      | inl before ↦ elim (Bool-cases (k == j)) [
        | inl same ↦ inr (λ x m. d.dims x (rw ((eq_iff k j).0 same) m))
        | inr other ↦ elim (p.dealt j before) [
          | inl m ↦ inl (d.keeps j (unfold mem in ground (arith, m, other)))
          | inr dark ↦ inr (λ x m. d.shrinks x (dark x m))
        ]
      ]
      | inr (m, here) ↦ inl m
    ];
    waiting = λ j m. elim (d.queues j m) [
      | inl before ↦ d.shrinks j (p.waiting j (unfold mem in ground (arith, before)))
      | inr here ↦ d.dims j here
    ];
  }

  pub propagate-Spread :
      (fuel : ℕ) (queue : List String) (visible : Dict Bool)
      → length queue + trues visible < fuel
      → Pending visible queue
      → (after : Dict Bool) × (propagate fuel reverse queue visible ≡ ok after)
        × Spread visible after
  unfolding propagate
  propagate-Spread zero queue visible lt p = absurd (omega (arith, lt))
  propagate-Spread (suc fuel) [] visible lt p = (
    visible,
    refl,
    record {
      closed = λ k e. elim (p.dealt k e) [ inl m ↦ absurd (unfold mem in cc) | inr dark ↦ dark ];
      shrinks = λ k e. e;
      largest = λ S back all k x. all k x;
    },
  )
  propagate-Spread (suc fuel) (k ∷ queue) visible lt p =
      let d = darken-Darkened (slices k reverse) visible queue in
      let mid = darken (slices k reverse) (visible, queue) in
      let (after, run, s) =
        propagate-Spread fuel mid.1 mid.0 (omega (arith, lt, d.counts))
          (step-Pending k queue visible mid p d) in
      (
        after,
        run,
        record {
          closed = s.closed;
          shrinks = λ j e. s.shrinks j (d.shrinks j e);
          largest = λ S back all. s.largest S back (λ j x. elim (Bool-cases (sees j mid.0)) [
            | inl lit ↦ lit
            | inr dark ↦ elim (d.blames j dark) [
              | inl before ↦ absurd (ground (arith, all j x, before))
              | inr (m, here) ↦
                  let lit = all k (back k j here x) in
                  absurd (ground (arith, lit, p.waiting k (mem-cons_self k queue)))
            ]
          ]);
        },
      )

  -- The loop of `Reduce` has enough fuel.
  pub trues-fuel :
      (queue : List String) (visible : Dict Bool)
      → length queue + trues visible < suc (length queue + length visible)
  trues-fuel queue visible = omega (arith, trues-le visible)
