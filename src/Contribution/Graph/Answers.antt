-- ===== src/Contribution/Graph/Answers.antt =====
-- internal/contribution/model.go: the heads, the blocked actors and the facts behind a view.
use mathlib.Core.Path.{subst}
use hubnot.Prelude.{◌≡◌, ◌≢◌, sym, not, ◌&&◌, String, List, ok, err, out_of_fuel, ◌==◌, has}
use hubnot.Prelude.Strings.{mem}
use hubnot.Prelude.Maps.{Dict, slices}
use hubnot.Contribution.Records.{Verified}
use hubnot.Contribution.Graph.Facts.{NativeFact, depth_of}
use hubnot.Contribution.Graph.Grounds.{Has, Grounded}
use hubnot.Contribution.Graph.Nodes.{GraphRecord, Scope}
use hubnot.Contribution.Graph.Receipts.{root_of}
use hubnot.Contribution.Graph.Admission.Eligible.{Eligible}
use hubnot.Contribution.Graph.Visibility.Heads.{succeeds, heads_of-exact}
use hubnot.Contribution.Graph.View.{Evidence, View, sources_of, gather_evidence, reduce}
use hubnot.Contribution.Graph.Reduced.Steps.{
  gather_evidence-Good, Parts, view_of-Parts, view_evidence,
}

module _ (scope : Scope) (e : Evidence) (view : View) (parts : Parts scope e view) where
  heads-exact :
      (root id : String)
      → mem id (slices root view.heads)
        ≡ (mem id view.admitted && root_of e.reduction.table id == root)
          && not (has (succeeds e.reduction.table root id) view.admitted)
  heads-exact root id =
      subst
        (λ h.
          mem id (slices root h)
          ≡ (mem id view.admitted && root_of e.reduction.table id == root)
            && not (has (succeeds e.reduction.table root id) view.admitted))
        (sym parts.leads) (heads_of-exact e.reduction.table view.admitted root id)

-- The heads of a root are the admitted revisions that have this root and are no parent of an admitted
-- revision of it.
pub reduce_leads :
    (scope : Scope) (input : List Verified) (view : View)
    → reduce scope input ≡ ok view
    → (e : Evidence) × (gather_evidence scope input ≡ ok e)
      × ((root id : String)
          → mem id (slices root view.heads)
            ≡ (mem id view.admitted && root_of e.reduction.table id == root)
              && not (has (succeeds e.reduction.table root id) view.admitted))
reduce_leads scope input view run =
    let (e, gathered, viewed) = view_evidence scope input view run in
    (e, gathered, heads-exact scope e view (view_of-Parts scope e view viewed))

-- Every native fact that the evidence rests on is grounded: it was supplied for its ID and is valid;
-- a root has no parents and its author signed it, an edit has a root of the same family and author;
-- its parents have its root and author; all that it depends on is there, at a smaller depth, and
-- no depth exceeds the limit of the policy. The native source never returns the model's own error.
pub gather_evidence-Grounded :
    (scope : Scope) (input : List Verified) (e : Evidence)
    → ((id : String) → scope.native id ≢ err out_of_fuel)
    → gather_evidence scope input ≡ ok e
    → (nodes : Dict GraphRecord) × ((id : String) (f : NativeFact)
        → Has e.reduction.table id f
        → Grounded (sources_of scope nodes) e.reduction.table id f (depth_of id e.reduction.table))
gather_evidence-Grounded scope input e answers gathered =
    let (nodes, good) = gather_evidence-Good scope input e answers gathered in
    (nodes, good.grounded)
