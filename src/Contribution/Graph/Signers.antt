-- ===== src/Contribution/Graph/Signers.antt =====
-- internal/contribution/model.go: the baseline, and which submissions, decisions and receipts stand.
use hubnot.Prelude.{
  Bool, true, false, not, ◌&&◌, ◌||◌, String, List, [], ◌∷◌, ◌++◌, Option, none, some, Result, ok,
  err, Error, errorf, Checked, refuse, context, ◌>>◌, ◌==◌, if◌then◌else◌, has,
}
use hubnot.Prelude.Strings.{mem}
use hubnot.Prelude.Maps.{lookup, insert, present}
use hubnot.Contribution.Quota.{passes}
use hubnot.Contribution.Rules.{AuthorityRef, Authority, ContributionPolicy, validate_authority}
use hubnot.Contribution.Records.{Reference, Content, Submission, Entry, dependency_ids}
use hubnot.Contribution.Graph.Facts.{NativeFact, FactTable, Sources, Lookup, get_fact, fact_fuel}
use hubnot.Contribution.Graph.Nodes.{GraphRecord, Scope, Reduction, no_authority, invalidate}

unfoldable pub equal_ids : List String → List String → Bool
equal_ids [] [] = true
equal_ids (a ∷ xs) (b ∷ ys) = if not (a == b) then false else equal_ids xs ys
equal_ids _ _ = false

unfoldable pub equal_references : List Reference → List Reference → Bool
equal_references [] [] = true
equal_references (a ∷ xs) (b ∷ ys) =
    if not (a.kind == b.kind && a.id == b.id) then false else equal_references xs ys
equal_references _ _ = false

unfoldable pub same_content : Content → Content → Bool
same_content a b =
    a.root_id == b.root_id
    && a.revision == b.revision
    && a.author == b.author
    && equal_ids a.parents b.parents
    && equal_references a.references b.references

-- A call of `getFact` from outside of it, with the fuel for it.
unfoldable pub find_fact : Sources → String → Lookup NativeFact
find_fact s id t = get_fact (fact_fuel s.limits) s 0 id t

-- The first loop over the baseline.
unfoldable pub baseline_facts : Sources → List String → FactTable → Result FactTable
baseline_facts s [] t = ok t
baseline_facts s (id ∷ ids) t =
    let (found, after) = find_fact s id t in
    elim found [
      | err e ↦ context "invalid historical baseline: %w" [] (err e)
      | ok f ↦ baseline_facts s ids after
    ]

-- `facts[id]`, whose missing value has no parents and no references.
abbrev fact_dependencies : FactTable → String → List String
fact_dependencies t id = elim (lookup id t.facts) [ none ↦ [] | some f ↦ dependency_ids f.content ]

-- The second loop over the baseline.
unfoldable pub baseline_closed : List String → List String → FactTable → Checked
baseline_closed baseline [] t = ok tt
baseline_closed baseline (id ∷ ids) t = do
  refuse (has (λ dep. not (mem dep baseline)) (fact_dependencies t id))
      (errorf "baseline lacks exact structural dependency closure" [])
  baseline_closed baseline ids t

-- The native fact is the one that the submission says it is.
unfoldable pub binds : Entry → Submission → Result NativeFact → Bool
binds r sub (err e) = false
binds r sub (ok f) =
    f.actor == r.actor && f.operation == sub.operation && same_content f.content sub.content

unfoldable pub check_submission : Sources → String → Entry → Submission → Reduction → Reduction
check_submission s id r sub st =
    let (found, table) = find_fact s sub.content.revision st.table in
    let after = record st { table = table } in
    if binds r sub found
    then after
    else invalidate id "submission does not bind exact authenticated native fact" after

abbrev is_established : Result Bool → Bool
is_established (ok b) = b
is_established (err e) = false

-- The authority that a decision or a receipt names, as long as it holds.
unfoldable pub evaluated_authority :
    Scope → String → Entry → AuthorityRef → Result (Authority × ContributionPolicy)
evaluated_authority scope id r ref =
    let unknown = err (errorf "invalid historical authority" []) in
    elim (scope.historical ref) [
      | err e ↦ unknown
      | ok a ↦ elim a.policy [
        | none ↦ unknown
        | some p ↦
            if not (a.ref.commit == ref.commit && a.ref.digest == ref.digest)
              || not (passes (validate_authority a p))
              || not (p.project == r.project)
            then unknown
            else if not (ref.digest == scope.current.ref.digest)
                && not (is_established (scope.established id ref))
            then err (errorf "old policy requires established authority checkpoint" [])
            else ok (a, p)
      ]
    ]

-- Why a signer has no authority under the policy that it names.
unfoldable pub signer_problem : Entry → Authority → ContributionPolicy → Option String
signer_problem r a p =
    if present r.decided && not (mem r.actor p.moderators)
    then some "decision signer lacks evaluated moderator authority"
    else if present r.received && not (mem r.actor a.maintainers) && not (mem r.actor p.moderators)
    then some "receipt signer lacks evaluated intake authority"
    else if mem r.actor p.revoked_moderators
    then some "signer revoked by evaluated policy"
    else none

abbrev reason_of : Error → String
reason_of (errorf why arguments) = why
reason_of _ = ""

-- The rest of a round for a decision or a receipt.
unfoldable pub check_signed : Scope → String → GraphRecord → AuthorityRef → Reduction → Reduction
check_signed scope id n ref st = elim (evaluated_authority scope id n.entry ref) [
  | err e ↦ invalidate id (reason_of e) st
  | ok (a, p) ↦
      let assigned = record st { nodes = insert id (record n { authority = a }) st.nodes } in
      elim (signer_problem n.entry a p) [
        | some why ↦ invalidate id why assigned
        | none ↦
            if mem n.entry.actor scope.policy.revoked_moderators
            then record st {
              nodes = insert id (record n { authority = a; effective = false }) st.nodes;
              revoked = st.revoked ++ id ∷ [];
            }
            else assigned
      ]
]

-- The authority that a decision or a receipt names; a record without both is no valid record.
abbrev named_authority : Entry → AuthorityRef
named_authority r = elim r.decided [
  | some d ↦ d.authority
  | none ↦ elim r.received [ some x ↦ x.authority | none ↦ no_authority.ref ]
]

unfoldable pub check_node : Scope → Sources → String → Reduction → Reduction
check_node scope s id st = elim (lookup id st.nodes) [
  | none ↦ st
  | some n ↦ if not n.valid then st else elim n.entry.submitted [
    | some sub ↦ check_submission s id n.entry sub st
    | none ↦ check_signed scope id n (named_authority n.entry) st
  ]
]

unfoldable pub check_nodes : Scope → Sources → List String → Reduction → Reduction
check_nodes scope s [] st = st
check_nodes scope s (id ∷ ids) st = check_nodes scope s ids (check_node scope s id st)
