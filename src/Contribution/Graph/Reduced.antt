-- ===== src/Contribution/Graph/Reduced.antt =====
-- internal/contribution/model.go: what `Reduce` returns.
pub mod Steps
use mathlib.Core.Path.{subst}
use hubnot.Prelude.{
  ℕ, ◌≡◌, ◌≢◌, ◌↔◌, refl, sym, ◌∙◌, Bool, true, false, not, ◌&&◌, String, List, [], ◌∷◌, none, some,
  Result, ok, err, out_of_fuel, arith, All, All-map, Bool-cases, inl, inr, ◌==◌, eq_iff, has,
  is_empty, Result-cases, ok-injective, >>=-eq-ok, ◌>>=◌, ◌>>◌,
}
use hubnot.Prelude.Strings.{mem, mem-append, mem-cons_self}
use hubnot.Prelude.Maps.{Dict, lookup, slices}
use hubnot.Contribution.Checks.{valid_id}
use hubnot.Contribution.Records.{
  Reference, Content, Verified, dependency_ids, reference_ids, validate_content,
}
use hubnot.Contribution.Graph.Facts.{NativeFact, FactTable}
use hubnot.Contribution.Graph.Grounds.{Has, Good, Grounded}
use hubnot.Contribution.Graph.Nodes.{GraphRecord, Scope}
use hubnot.Contribution.Graph.Receipts.{root_of}
use hubnot.Contribution.Graph.Outcomes.{shown}
use hubnot.Contribution.Graph.Admission.Eligible.{Eligible, eligible}
use hubnot.Contribution.Graph.Visibility.{gate_of, heads_of, visible_ids, references_of}
use hubnot.Contribution.Graph.Visibility.Gates.{gate-apart}
use hubnot.Contribution.Graph.Visibility.Heads.{succeeds, heads_of-exact, heads_of-Entries}
use hubnot.Contribution.Graph.Visibility.Fixed.{Supported, visible_ids-largest}
use hubnot.Contribution.Graph.View.{
  Evidence, View, sources_of, gather_evidence, grounds_of, admitted_ids, view_of, reduce,
}
use Steps.{
  gather_evidence-Good, Good-Ranked, admitted_ids-exact, Parts, view_of-Parts, admitted-exact,
  view_evidence,
}

valid_revision : (c : Content) → validate_content c ≡ ok tt → valid_id c.revision ≡ true
unfolding validate_content
valid_revision c v = ground (arith, v)

refs_admitted :
    (admitted : List String) (refs : List Reference)
    → ((dep : String) → mem dep (reference_ids refs) ≡ true → mem dep admitted ≡ true)
    → All (λ r. r.kind ≡ "revision" → mem r.id admitted ≡ true) refs
unfolding reference_ids mem
refs_admitted admitted [] h = tt
refs_admitted admitted (r ∷ refs) h = (
  λ e. h r.id (mem-cons_self r.id (reference_ids refs)),
  refs_admitted admitted refs (λ dep m. h dep (ground (arith, m))),
)

-- What is eligible has a fact, and its references are eligible.
module _ (scope : Scope) (nodes : Dict GraphRecord) (e : Evidence)
    (good : Good (sources_of scope nodes) e.reduction.table) where
  Eligible-apart : (id r : String) → Eligible (grounds_of scope e) id → (gate_of r == id) ≡ false
  Eligible-apart id r (eligible f has_fact c b b' deps) =
      let g = good.grounded id f has_fact in
      gate-apart r id (rw (← g.named) (valid_revision f.content g.content_valid))

  Eligible-references :
      (admitted : List String) (id : String)
      → ((i : String) → Eligible (grounds_of scope e) i → mem i admitted ≡ true)
      → Eligible (grounds_of scope e) id
      → All
          (λ r. r.kind ≡ "revision" → mem r.id admitted ≡ true)
          (references_of e.reduction.table id)
  Eligible-references admitted id all (eligible f has_fact c b b' deps) =
      rw (has_fact, All, references_of)
        (refs_admitted admitted f.content.references (λ dep m. all dep (
          deps dep (
            unfold dependency_ids in
            ground (
              arith,
              mem-append dep f.content.parents (reference_ids f.content.references),
              m,
              Bool-cases (mem dep f.content.parents),
            )))))

  -- What the visible revisions are, for the admitted ones and the heads.
  abbrev Largest : List String → Dict (List String) → List String → Type 1
  Largest admitted heads visible =
      ((id : String) → mem id visible ≡ true → mem id admitted ≡ true)
      × Supported e.reduction.table (shown e.outcomes) heads (λ id. mem id visible ≡ true)
      × ((S : String → Type 0)
          → ((id : String) → S id → mem id admitted ≡ true)
          → Supported e.reduction.table (shown e.outcomes) heads S
          → (id : String) → S id
          → mem id visible ≡ true)

  largest :
      (admitted : List String)
      → ((id : String) → (mem id admitted ≡ true) ↔ Eligible (grounds_of scope e) id)
      → (out : List String) × (visible_ids e.reduction.table
            (shown e.outcomes)
            (heads_of e.reduction.table admitted)
            admitted
          ≡ ok out)
        × Largest admitted (heads_of e.reduction.table admitted) out
  largest admitted exact =
      let table = e.reduction.table in
      let (out, run, kept, held, most) =
        visible_ids-largest table (heads_of table admitted) (shown e.outcomes) admitted
          (λ id r m. Eligible-apart id r ((exact id).0 m)) (heads_of-Entries table admitted)
          (λ r h m. ground (arith, heads_of-exact table admitted r h, m))
          (λ id m. Eligible-references admitted id (λ i. (exact i).1) ((exact id).0 m)) in
      (out, run, (kept, held, most))

  view_of-Largest :
      (view : View) → Parts scope e view → Largest view.admitted view.heads view.visible
  view_of-Largest view parts =
      let (out, sight, most) =
        largest view.admitted (admitted-exact scope e nodes good view parts) in
      let at_heads =
        subst
          (λ h.
            (visible_ids e.reduction.table (shown e.outcomes) h view.admitted ≡ ok out)
            × Largest view.admitted h out)
          (sym parts.leads) (sight, most) in
      subst (Largest view.admitted view.heads) (ok-injective (sym at_heads.0 ∙ parts.sight))
        at_heads.1

  view_of-returns : (view : View) × (view_of scope e ≡ ok view)
  unfolding view_of
  view_of-returns =
      let exact = admitted_ids-exact scope e (Good-Ranked scope nodes e good) in
      let (out, sight, most) = largest (admitted_ids scope e) exact in rw (sight, view_of) (_, refl)

-- With evidence, `Reduce` has a view.
pub view_of-total :
    (scope : Scope) (input : List Verified) (e : Evidence)
    → ((id : String) → scope.native id ≢ err out_of_fuel)
    → gather_evidence scope input ≡ ok e
    → (view : View) × (view_of scope e ≡ ok view)
view_of-total scope input e answers gathered =
    let (nodes, good) = gather_evidence-Good scope input e answers gathered in
    view_of-returns scope nodes e good

module _ (scope : Scope) (input : List Verified) (view : View)
    (answers : (id : String) → scope.native id ≢ err out_of_fuel)
    (run : reduce scope input ≡ ok view) where
  -- `Reduce` admits exactly the eligible revisions, under the evidence that it gathered: the
  -- candidates with a native fact, of signers and authors who are not blocked, all of whose parents
  -- and references are eligible. The native source never returns the model's own error.
  pub reduce_admits :
      (e : Evidence) × (gather_evidence scope input ≡ ok e)
      × ((id : String) → (mem id view.admitted ≡ true) ↔ Eligible (grounds_of scope e) id)
  reduce_admits =
      let (e, gathered, viewed) = view_evidence scope input view run in
      let (nodes, good) = gather_evidence-Good scope input e answers gathered in
      (e, gathered, admitted-exact scope e nodes good view (view_of-Parts scope e view viewed))

  -- The visible revisions are the largest set of admitted revisions that the decisions show, and
  -- whose references need no revision outside of the set: a reference to a revision needs it, and a
  -- reference to a root needs that the root has heads, and all of them. The native source never
  -- returns the model's own error.
  pub reduce_shows :
      (e : Evidence) × (gather_evidence scope input ≡ ok e)
      × ((id : String) → mem id view.visible ≡ true → mem id view.admitted ≡ true)
      × Supported e.reduction.table (shown e.outcomes) view.heads (λ id. mem id view.visible ≡ true)
      × ((S : String → Type 0)
          → ((id : String) → S id → mem id view.admitted ≡ true)
          → Supported e.reduction.table (shown e.outcomes) view.heads S
          → (id : String) → S id
          → mem id view.visible ≡ true)
  reduce_shows =
      let (e, gathered, viewed) = view_evidence scope input view run in
      let (nodes, good) = gather_evidence-Good scope input e answers gathered in
      let (kept, held, most) =
        view_of-Largest scope nodes e good view (view_of-Parts scope e view viewed) in
      (e, gathered, kept, held, most)
