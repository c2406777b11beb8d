-- ===== src/Contribution/Graph/Facts.antt =====
-- internal/contribution/model.go: the native facts that records and other facts depend on, with the
-- memory of `Reduce` for the facts that were found and those that failed.
use hubnot.Prelude.{
  ℕ, zero, suc, ◌+◌, Bool, true, false, not, ◌&&◌, ◌||◌, String, List, [], ◌∷◌, ◌++◌, none, some,
  Result, ok, err, Error, errorf, out_of_fuel, ◌==◌, if◌then◌else◌, ltb, leb, length, is_empty,
  int_lt, lt_int, pos, negsuc,
}
use hubnot.Prelude.Strings.{mem, remove}
use hubnot.Prelude.Maps.{Dict, lookup, insert}
use hubnot.Contribution.Checks.{max_graph_records, valid_actor}
use hubnot.Contribution.Quota.{Limits}
use hubnot.Contribution.Rules.{content_operation, author_operation}
use hubnot.Contribution.Records.{Reference, Content, dependency_ids, validate_content}

-- `Fact` of the source.
pub record NativeFact : Type 0 where
  pub actor : String
  pub operation : String
  pub content : Content

-- The maps `facts`, `factDepth`, `factErrors` and `factVisiting`.
pub record FactTable : Type 0 where
  pub facts : Dict NativeFact
  pub depths : Dict ℕ
  pub errors : Dict Error
  pub visiting : List String

abbrev pub no_facts : FactTable
no_facts = record { facts = []; depths = []; errors = []; visiting = [] }

-- A computation that reads and extends the table.
abbrev pub Lookup {ℓ} : Type ℓ → Type ℓ
Lookup A = FactTable → Result A × FactTable

abbrev pub resume {ℓ κ} :
    {A : Type ℓ} {B : Type κ} → Result A × FactTable → (A → Lookup B) → Result B × FactTable
resume (ok a, u) rest = rest a u
resume (err e, u) rest = (err e, u)

infixl 5 ◌>>=◌ ◌>>◌
abbrev pub ◌>>=◌ {ℓ κ} : {A : Type ℓ} {B : Type κ} → Lookup A → (A → Lookup B) → Lookup B
◌>>=◌ first rest t = resume (first t) rest

abbrev pub ◌>>◌ {ℓ} : {B : Type ℓ} → Lookup (Unit {0}) → Lookup B → Lookup B
check >> rest = check >>= λ done. rest

abbrev pub return {ℓ} : {A : Type ℓ} → Result A → Lookup A
return r t = (r, t)

abbrev pub require : Bool → String → Lookup (Unit {0})
require true format t = (ok tt, t)
require false format t = (err (errorf format []), t)

-- What the closure `getFact` reads: the number of nodes, the limits and the native source.
pub record Sources : Type 0 where
  pub counted : ℕ
  pub limits : Limits
  pub native : String → Result NativeFact

unfoldable pub same_family : String → String → Bool
same_family root revision =
    if revision == "issue.edit"
    then root == "issue.create"
    else if revision == "discussion.edit"
    then root == "discussion.create" || root == "discussion.reply"
    else if revision == "proposal.revise"
    then root == "proposal.create"
    else if revision == "project.edit"
    then root == "project.create"
    else if revision == "project-item.edit"
    then root == "project-item.create"
    else if revision == "workflow.edit"
    then root == "workflow.create"
    else false

abbrev pub depth_of : String → FactTable → ℕ
depth_of id t = elim (lookup id t.depths) [ none ↦ 0 | some d ↦ d ]

-- `maxDepth`, one more than the depth of the deepest dependency.
unfoldable pub deepest : FactTable → List String → ℕ → ℕ
deepest t [] m = m
deepest t (dep ∷ deps) m =
    deepest t deps (if ltb m (suc (depth_of dep t)) then suc (depth_of dep t) else m)

unfoldable pub over_budget : Sources → FactTable → Bool
over_budget s t =
    let used = s.counted + length t.facts + length t.errors in
    leb max_graph_records used
    || not (lt_int used s.limits.retained.events)
    || not (lt_int used s.limits.retained.objects)

-- The loops over parents and references; `get` is the recursive call.
unfoldable pub check_parents :
    (String → Lookup NativeFact) → Content → List String → Lookup (Unit {0})
check_parents get c [] = return (ok tt)
check_parents get c (parent ∷ parents) = do
  p ← get parent
  require (p.content.root_id == c.root_id && p.content.author == c.author)
      "cross-root native predecessor"
  check_parents get c parents

unfoldable pub check_references : (String → Lookup NativeFact) → List Reference → Lookup (Unit {0})
check_references get [] = return (ok tt)
check_references get (r ∷ refs) = do
  target ← get r.id
  require (not (r.kind == "root" && not (target.content.root_id == r.id)))
      "root reference names a non-root revision"
  check_references get refs

unfoldable pub check_root : (String → Lookup NativeFact) → String → NativeFact → Lookup (Unit {0})
check_root get id f =
    if f.content.root_id == id
    then (do
      require (not (author_operation f.operation)) "native edit lacks predecessor lineage"
      require (f.actor == f.content.author && is_empty f.content.parents)
          "invalid native root/author")
    else (do
      require (author_operation f.operation) "native creation/reply cannot revise another root"
      root ← get f.content.root_id
      require
          (root.content.root_id == f.content.root_id
            && root.content.author == f.content.author
            && not (is_empty f.content.parents)
            && same_family root.operation f.operation)
          "invalid native root lineage")

-- The tests of a fact on its own.
unfoldable pub check_fact : String → NativeFact → Lookup (Unit {0})
check_fact id f = do
  require (f.content.revision == id && valid_actor f.actor && content_operation f.operation)
      "invalid classified native fact"
  return (validate_content f.content)

abbrev pub is_reply : String → Bool
is_reply op = op == "issue.reply" || op == "discussion.reply"

-- All that the depth of a fact counts.
unfoldable pub all_dependencies : String → Content → List String
all_dependencies id c = dependency_ids c ++ (if c.root_id == id then [] else c.root_id ∷ [])

-- The test of `maxDepth`.
unfoldable pub measure : Sources → String → NativeFact → Lookup (NativeFact × ℕ)
measure s id f t =
    let depth = deepest t (all_dependencies id f.content) 0 in
    if int_lt s.limits.depth depth
    then (err (errorf "native dependency depth exceeded" []), t)
    else (ok (f, depth), t)

-- `getFact` from the call of the native source on.
unfoldable pub examine : (String → Lookup NativeFact) → Sources → String → Lookup (NativeFact × ℕ)
examine get s id = do
  f ← return (s.native id)
  check_fact id f
  check_root get id f
  check_parents get f.content f.content.parents
  check_references get f.content.references
  require (not (is_reply f.operation && is_empty f.content.references))
      "reply lacks exact target reference"
  measure s id f

-- What is recorded when `getFact` returns: the fact, or the error of `fail`.
unfoldable pub settle : String → Result (NativeFact × ℕ) × FactTable → Result NativeFact × FactTable
settle id (ok (f, depth), t) = (
  ok f,
  record t {
    facts = insert id f t.facts;
    depths = insert id depth t.depths;
    visiting = remove id t.visiting;
  },
)
settle id (err e, t) =
    (err e, record t { errors = insert id e t.errors; visiting = remove id t.visiting })

-- A call at a depth beyond the limit returns without a call.
abbrev pub fact_fuel : Limits → ℕ
fact_fuel limits = elim limits.depth [ pos n ↦ suc (suc n) | negsuc n ↦ 2 ]

unfoldable pub get_fact : ℕ → Sources → ℕ → String → Lookup NativeFact
get_fact zero s depth id t = (err out_of_fuel, t)
get_fact (suc fuel) s depth id t = elim (lookup id t.facts) [
  | some f ↦ (ok f, t)
  | none ↦ elim (lookup id t.errors) [
    | some e ↦ (err e, t)
    | none ↦
        if int_lt s.limits.depth depth || over_budget s t
        then (err (errorf "native dependency budget exceeded" []), t)
        else if mem id t.visiting
        then (err (errorf "native dependency cycle" []), t)
        else settle id
            (examine (get_fact fuel s (suc depth)) s id (record t { visiting = id ∷ t.visiting }))
  ]
]
