-- ===== src/Contribution/Graph/Nodes.antt =====
-- internal/contribution/model.go: the nodes of the graph, and which intents conflict.
use hubnot.Prelude.{
  ℕ, Bool, true, false, not, ◌||◌, String, List, [], ◌∷◌, ◌++◌, none, some, Result, ok, errorf,
  refuse, ◌>>◌, ◌==◌, if◌then◌else◌, ltb, length,
}
use hubnot.Prelude.Strings.{mem}
use hubnot.Prelude.Maps.{Dict, lookup, insert, push}
use hubnot.Prelude.Sort.{sort_strings}
use hubnot.Policy.Texts.{concat}
use hubnot.Contribution.Rules.{AuthorityRef, Authority, ContributionPolicy}
use hubnot.Contribution.Records.{Entry, Verified}
use hubnot.Contribution.Graph.Facts.{NativeFact, FactTable, no_facts}

pub record Conflict : Type 0 where
  pub key : String
  pub known_ids : List String

pub record Diagnostic : Type 0 where
  pub id : String
  pub reason : String

-- `graphRecord` of the source.
pub record GraphRecord : Type 0 where
  pub id : String
  pub entry : Entry
  pub authority : Authority
  pub effective : Bool
  pub valid : Bool

-- What `Reduce` is given: the authority in force, the policy that its field `policy` points to, and the
-- two sources.
pub record Scope : Type 0 where
  pub current : Authority
  pub policy : ContributionPolicy
  pub native : String → Result NativeFact
  pub historical : AuthorityRef → Result Authority
  pub established : String → AuthorityRef → Result Bool

-- The zero value `Authority{}`.
abbrev pub no_authority : Authority
no_authority = record { ref = record { commit = ""; digest = "" }; policy = none; maintainers = [] }

-- The variables of `Reduce` that its closures change.
pub record Reduction : Type 0 where
  pub nodes : Dict GraphRecord
  pub invalid : List Diagnostic
  pub revoked : List String
  pub table : FactTable
  pub decision_depths : Dict ℕ
  pub visited : List String
  pub visiting : List String

-- The closure `invalid`.
unfoldable pub invalidate : String → String → Reduction → Reduction
invalidate id why st = elim (lookup id st.nodes) [
  | none ↦ st
  | some n ↦ record st {
    nodes = insert id (record n { valid = false; effective = false }) st.nodes;
    invalid = if n.valid then st.invalid ++ record { id = id; reason = why } ∷ [] else st.invalid;
  }
]

unfoldable pub is_valid : String → Reduction → Bool
is_valid id st = elim (lookup id st.nodes) [ none ↦ false | some n ↦ n.valid ]

-- The variables of the first loop.
pub record Collection : Type 0 where
  pub seen : List String
  pub nodes : Dict GraphRecord
  pub known_ids : List String
  pub intents : Dict (List String)
  pub invalid : List Diagnostic

abbrev pub nothing_collected : Collection
nothing_collected = record { seen = []; nodes = []; known_ids = []; intents = []; invalid = [] }

unfoldable pub collect_record : String → Verified → Collection → Collection
collect_record project v c =
    if not (v.entry.project == project)
    then record c {
      seen = v.id ∷ c.seen;
      invalid = c.invalid ++ record { id = v.id; reason = "wrong project scope" } ∷ [];
    }
    else record c {
      seen = v.id ∷ c.seen;
      nodes =
          insert v.id
            (record {
              id = v.id;
              entry = v.entry;
              authority = no_authority;
              effective = true;
              valid = true;
            })
            c.nodes;
      known_ids = c.known_ids ++ v.id ∷ [];
      intents = push (concat v.entry.actor (concat ":" v.entry.intent)) v.id c.intents;
    }

unfoldable pub collect_records : String → List Verified → Collection → Result Collection
collect_records project [] c = ok c
collect_records project (v ∷ input) c = do
  refuse (v.id == "" || v.payload == "") (errorf "unauthenticated contribution record" [])
  collect_records project input (if mem v.id c.seen then c else collect_record project v c)

unfoldable pub invalidate_all : String → List String → Reduction → Reduction
invalidate_all why [] st = st
invalidate_all why (id ∷ ids) st = invalidate_all why ids (invalidate id why st)

-- The loop over `intentIDs`, with the conflicts found.
unfoldable pub intent_conflicts :
    Dict (List String) → List Conflict → Reduction → List Conflict × Reduction
intent_conflicts [] conflicts st = (conflicts, st)
intent_conflicts ((k, group) ∷ intents) conflicts st =
    if ltb 1 (length group)
    then intent_conflicts intents
        (conflicts ++ record { key = concat "intent:" k; known_ids = sort_strings group } ∷ [])
        (invalidate_all "conflicting actor/project intent" (sort_strings group) st)
    else intent_conflicts intents conflicts st

abbrev pub start_reduction : Collection → Reduction
start_reduction c = record {
  nodes = c.nodes;
  invalid = c.invalid;
  revoked = [];
  table = no_facts;
  decision_depths = [];
  visited = [];
  visiting = [];
}
