-- ===== src/Policy/Document.antt =====
-- policy.go: the policy document. A slice whose nil value the code tests is an `Option`.
use hubnot.Prelude.{String, Bool, true, false, List, [], Option, none, some, ℤ, if◌then◌else◌, not}
use hubnot.Prelude.Strings.{mem}
use hubnot.Prelude.Maps.{Dict, lookup}
use hubnot.Contribution.Rules.{ContributionPolicy, AuthorityRef}

pub record ContributionCheckpoint : Type 0 where
  pub id : String
  pub authority : AuthorityRef

pub record MemoryPolicy : Type 0 where
  pub trusted_actors : Option (List String)
  pub trusted_kinds : Option (List String)

pub record ProposalPolicy : Type 0 where
  pub required_approvals : ℤ
  pub required_accepts : ℤ
  pub trusted_reviewers : List String
  pub allow_author_approval : Bool

pub record PipelinePolicy : Type 0 where
  pub required_results : ℤ
  pub trusted_runners : List String
  pub requesters : Option (List String)

pub record ProtectedChecksPolicy : Type 0 where
  pub paths : Option (List String)
  pub trusted_reviewers : List String
  pub required_approvals : ℤ

pub record AutomergeRule : Type 0 where
  pub name : String
  pub target_branch : String
  pub actors : List String
  pub authors : List String
  pub paths : Option (List String)

pub record AutomergePolicy : Type 0 where
  pub rules : List AutomergeRule

pub record AuditPolicy : Type 0 where
  pub scope : String
  pub rule_owners : List String
  pub requesters : List String
  pub executors : List String

pub record PolicyDocument : Type 0 where
  pub contributions : Option ContributionPolicy
  pub contribution_checkpoints : List ContributionCheckpoint
  pub version : String
  pub maintainers : List String
  pub proposals : ProposalPolicy
  pub pipelines : Dict PipelinePolicy
  pub memory : Option MemoryPolicy
  pub protected_checks : Option ProtectedChecksPolicy
  pub automerge : Option AutomergePolicy
  pub audits : Option AuditPolicy

-- A nil slice ranges as an empty one.
abbrev pub or_nil : Option (List String) → List String
or_nil none = []
or_nil (some xs) = xs

unfoldable pub actor_listed : String → List String → Bool
actor_listed actor actors = mem actor actors

-- `mayRequestRun`
unfoldable pub may_request_run : PolicyDocument → String → String → Bool
unfolding actor_listed
may_request_run policy pipeline actor =
    if actor_listed actor policy.maintainers
    then true
    else elim (lookup pipeline policy.pipelines) [
      | none ↦ false
      | some p ↦ actor_listed actor (or_nil p.requesters)
    ]

-- `classifyMemoryTrust`; the four classes are those of memory_projection.go.
unfoldable pub classify_memory_trust : Option MemoryPolicy → String → String → String
unfolding actor_listed
classify_memory_trust none actor kind = "policy-missing"
classify_memory_trust (some policy) actor kind =
    if not (actor_listed actor (or_nil policy.trusted_actors))
    then "actor-untrusted"
    else if not (mem kind (or_nil policy.trusted_kinds))
    then "kind-untrusted"
    else "qualified"
