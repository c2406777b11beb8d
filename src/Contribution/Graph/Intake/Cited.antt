-- ===== src/Contribution/Graph/Intake/Cited.antt =====
-- internal/contribution/model.go: the evidence that `IntakeEvidence` cites.
use hubnot.Prelude.{
  ◌≡◌, refl, true, false, ◌||◌, String, List, [], ◌∷◌, ◌++◌, ok, arith, Bool-cases, inl, inr, ◌==◌,
  eq_iff, has, if◌then◌else◌, is_empty, All, All-append, >>=-eq-ok, ok-injective,
}
use mathlib.Core.Path.{subst}
use hubnot.Prelude.Strings.{mem, distinct, mem-append, distinct-snoc}
use hubnot.Prelude.Maps.{slices}
use hubnot.Contribution.Records.{Reference}
use hubnot.Contribution.Graph.View.{View}
use hubnot.Contribution.Graph.Intake.{
  heads_at, add_ids, add_heads, require_exact, require_each, require_root, view_root,
  require_parents,
}

pub mem-add_ids :
    (x : String) (ids cut : List String) → mem x (add_ids ids cut) ≡ mem x ids || mem x cut
unfolding add_ids mem
mem-add_ids x [] cut = refl
mem-add_ids x (id ∷ ids) cut = ground (
  arith,
  mem-add_ids x ids cut,
  mem-add_ids x ids (cut ++ id ∷ []),
  mem-append x cut (id ∷ []),
  eq_iff id x,
  Bool-cases (mem x ids),
  Bool-cases (mem x cut),
)

pub distinct-add_ids :
    (ids cut : List String) → distinct cut ≡ true → distinct (add_ids ids cut) ≡ true
unfolding add_ids
distinct-add_ids [] cut d = d
distinct-add_ids (id ∷ ids) cut d = elim (Bool-cases (mem id cut)) [
  | inl old ↦ rw old (distinct-add_ids ids cut d)
  | inr new ↦ rw new (distinct-add_ids ids (cut ++ id ∷ []) (distinct-snoc cut id d new))
]

-- The decisions on the visibility of a revision.
abbrev pub revision_heads : View → String → List String
revision_heads view id = heads_at (record { kind = "revision"; id = id }) view.decision_heads

abbrev pub actor_heads : View → String → List String
actor_heads view id = heads_at (record { kind = "actor"; id = id }) view.decision_heads

-- A dependency that an intake may rest on.
abbrev pub Open : View → String → Type 0
Open view id = (mem id view.admitted ≡ true) × (mem id view.visible ≡ true)

module _ (view : View) where
  -- From one cut to the next: the revisions are open, and their decisions are added.
  pub record Took (ids cut after : List String) : Type 0 where
    pub allowed : All (Open view) ids
    pub adds :
        (x : String) → mem x after ≡ has (λ id. mem x (revision_heads view id)) ids || mem x cut
    pub once : distinct cut ≡ true → distinct after ≡ true

  has-append :
      (x : String) (xs ys : List String)
      → has (λ id. mem x (revision_heads view id)) (xs ++ ys)
        ≡ has (λ id. mem x (revision_heads view id)) xs
          || has (λ id. mem x (revision_heads view id)) ys
  unfolding has
  has-append x [] ys = refl
  has-append x (id ∷ xs) ys = ground (arith, has-append x xs ys)

  pub Took-append : {xs ys a b c : List String} → Took xs a b → Took ys b c → Took (xs ++ ys) a c
  Took-append {xs} {ys} {a} {b} {c} s t = record {
    allowed = All-append (Open view) xs ys s.allowed t.allowed;
    adds = λ x. ground (
      arith,
      s.adds x,
      t.adds x,
      has-append x xs ys,
      Bool-cases (has (λ id. mem x (revision_heads view id)) xs),
      Bool-cases (has (λ id. mem x (revision_heads view id)) ys),
    );
    once = λ d. t.once (s.once d);
  }

  pub Took-nil : (cut : List String) → Took [] cut cut
  unfolding has
  Took-nil cut = record { allowed = tt; adds = λ x. refl; once = λ d. d }

  pub require_exact-Took :
      (id : String) (cut : List String) {after : List String}
      → require_exact view id cut ≡ ok after
      → Took (id ∷ []) cut after
  unfolding require_exact add_heads has
  require_exact-Took id cut {after} run =
      let same : add_ids (revision_heads view id) cut ≡ after = ground (arith, run) in
      subst (Took (id ∷ []) cut) same (record {
        allowed = ((ground (arith, run), ground (arith, run)), tt);
        adds = λ x. ground (
          arith,
          mem-add_ids x (revision_heads view id) cut,
          Bool-cases (mem x (revision_heads view id)),
        );
        once = distinct-add_ids (revision_heads view id) cut;
      })

  require_each-Took :
      (ids cut : List String) {after : List String}
      → require_each view ids cut ≡ ok after
      → Took ids cut after
  unfolding require_each
  require_each-Took [] cut run = subst (Took [] cut) (ok-injective run) (Took-nil cut)
  require_each-Took (id ∷ ids) cut run =
      let (mid, one, rest) = >>=-eq-ok (require_exact view id cut) (require_each view ids) run in
      Took-append (require_exact-Took id cut one) (require_each-Took ids mid rest)

  pub require_root-Took :
      (root : String) (cut : List String) {after : List String}
      → require_root view root cut ≡ ok after
      → (is_empty (slices root view.heads) ≡ false) × Took (slices root view.heads) cut after
  unfolding require_root
  require_root-Took root cut run = elim (Bool-cases (is_empty (slices root view.heads))) [
    | inl none_left ↦ absurd (ground (arith, run, none_left))
    | inr full ↦ (full, require_each-Took (slices root view.heads) cut (ground (arith, run, full)))
  ]

  -- What the parents and the references of a content require.
  abbrev pub parents_need : List String → List String
  parents_need [] = []
  parents_need (parent ∷ parents) =
      ((parent ∷ []) ++ slices (view_root view parent) view.heads) ++ parents_need parents

  abbrev pub reference_needs : Reference → List String
  reference_needs r = if r.kind == "root" then slices r.id view.heads else r.id ∷ []

  abbrev pub references_need : List Reference → List String
  references_need [] = []
  references_need (r ∷ refs) = reference_needs r ++ references_need refs

  pub require_parents-Took :
      (parents cut : List String) {after : List String}
      → require_parents view parents cut ≡ ok after
      → Took (parents_need parents) cut after
  unfolding require_parents
  require_parents-Took [] cut run = subst (Took [] cut) (ok-injective run) (Took-nil cut)
  require_parents-Took (parent ∷ parents) cut run =
      let (exact, one, run1) = >>=-eq-ok (require_exact view parent cut) _ run in
      let (whole, two, run2) =
        >>=-eq-ok (require_root view (view_root view parent) exact) (require_parents view parents)
          run1 in
      Took-append
        (Took-append (require_exact-Took parent cut one)
          (require_root-Took (view_root view parent) exact two).1)
        (require_parents-Took parents whole run2)
