-- ===== src/Contribution/Graph/Intake.antt =====
-- internal/contribution/model.go: the evidence that a new receipt cites.
pub mod Cited
pub mod Cleared
pub mod Granted
use hubnot.Prelude.{
  Bool, true, false, not, ◌&&◌, ◌||◌, String, List, [], ◌∷◌, ◌++◌, Option, none, some, Result, ok,
  err, errorf, Checked, refuse, ◌>>=◌, ◌>>◌, ◌==◌, ltb, if◌then◌else◌, length, is_empty,
}
use hubnot.Prelude.Strings.{mem}
use hubnot.Prelude.Maps.{lookup, slices}
use hubnot.Prelude.Sort.{sort_strings}
use hubnot.Contribution.Checks.{max_links}
use hubnot.Contribution.Records.{Target, Reference, Verified}
use hubnot.Contribution.Graph.Decisions.{target_eqb}
use hubnot.Contribution.Graph.View.{View}

-- `view.DecisionHeads[target]`
unfoldable pub heads_at : Target → List (Target × List String) → List String
heads_at target [] = []
heads_at target ((t, ids) ∷ heads) = if target_eqb t target then ids else heads_at target heads

-- The set `heads` with more members.
unfoldable pub add_ids : List String → List String → List String
add_ids [] cut = cut
add_ids (id ∷ ids) cut = add_ids ids (if mem id cut then cut else cut ++ id ∷ [])

-- The closure `add`.
unfoldable pub add_heads : View → Target → List String → List String
add_heads view target cut = add_ids (heads_at target view.decision_heads) cut

unfoldable pub require_exact : View → String → List String → Result (List String)
require_exact view id cut = do
  refuse (not (mem id view.admitted) || not (mem id view.visible))
      (errorf "dependency is not admitted and visible" [])
  ok (add_heads view (record { kind = "revision"; id = id }) cut)

unfoldable pub require_each : View → List String → List String → Result (List String)
require_each view [] cut = ok cut
require_each view (id ∷ ids) cut = do after ← require_exact view id cut; require_each view ids after

unfoldable pub require_root : View → String → List String → Result (List String)
require_root view root cut = do
  refuse (is_empty (slices root view.heads)) (errorf "resource lacks admitted state heads" [])
  require_each view (slices root view.heads) cut

-- `view.Roots[parent]`
abbrev pub view_root : View → String → String
view_root view id = elim (lookup id view.roots) [ none ↦ "" | some root ↦ root ]

unfoldable pub require_parents : View → List String → List String → Result (List String)
require_parents view [] cut = ok cut
require_parents view (parent ∷ parents) cut = do
  exact ← require_exact view parent cut
  whole ← require_root view (view_root view parent) exact
  require_parents view parents whole

unfoldable pub require_reference : View → Reference → List String → Result (List String)
require_reference view r cut = do
  refuse (not (mem r.id view.admitted)) (errorf "reference identity is not admitted" [])
  if r.kind == "root" then require_root view r.id cut else require_exact view r.id cut

unfoldable pub require_references : View → List Reference → List String → Result (List String)
require_references view [] cut = ok cut
require_references view (r ∷ refs) cut = do
  after ← require_reference view r cut
  require_references view refs after

unfoldable pub intake_evidence : View → Verified → Result (List String)
intake_evidence view v = do
  refuse (v.id == "") (errorf "authenticated submission required" [])
  elim v.entry.submitted [
    | none ↦ err (errorf "wrong project or record kind" [])
    | some s ↦ (do
      refuse (not (v.entry.project == view.project)) (errorf "wrong project or record kind" [])
      refuse (mem v.entry.actor view.blocked || mem s.content.author view.blocked)
          (errorf "blocked actor cannot authorize intake" [])
      let actors =
          add_heads view (record { kind = "actor"; id = s.content.author })
            (add_heads view (record { kind = "actor"; id = v.entry.actor }) [])
      followed ← require_parents view s.content.parents actors
      cited ← require_references view s.content.references followed
      refuse (ltb max_links (length cited))
          (errorf "evaluated moderation evidence limit exceeded" [])
      ok (sort_strings cited))
  ]
