-- ===== src/Contribution/Rules.antt =====
-- internal/contribution/policy.go: the project policy, and what it permits.
pub mod Permits
use hubnot.Prelude.{
  ℕ, Bool, true, false, not, ◌&&◌, ◌||◌, String, List, [], ◌∷◌, Option, none, some, Result, ok, err,
  errorf, Checked, refuse, ◌>>=◌, ◌>>◌, ◌==◌, if◌then◌else◌, ltb, eqb, length, is_empty,
}
use hubnot.Prelude.Strings.{mem}
use hubnot.Contribution.Checks.{
  max_links, max_graph_records, err_authority, valid_id, valid_actor, valid_oid, valid_ids,
  valid_actors,
}
use hubnot.Contribution.Quota.{Limits, validate_limits}

pub record Rule : Type 0 where
  pub operation : String
  pub automatic : Bool
  pub actors : List String
  pub allow_maintainers : Bool

pub record ContributionPolicy : Type 0 where
  pub project : String
  pub moderators : List String
  pub revoked_moderators : List String
  pub rules : List Rule
  pub baseline : List String
  pub limits : Limits

pub record AuthorityRef : Type 0 where
  pub commit : String
  pub digest : String

pub record Authority : Type 0 where
  pub ref : AuthorityRef
  pub policy : Option ContributionPolicy
  pub maintainers : List String

pub record Request : Type 0 where
  pub operation : String
  pub actor : String
  pub author : String
  pub verified : Bool
  pub dependencies_admitted : Bool
  pub receipt : Bool
  pub manual : Bool
  pub moderator : String

pub record Permission : Type 0 where
  pub allowed : Bool
  pub automatic : Bool
  pub legacy : Bool
  pub requires_native_authority : Bool
  pub reason : String

abbrev pub content_operations : List String
content_operations =
    "issue.create" ∷ "issue.reply" ∷ "issue.edit" ∷ "discussion.create" ∷ "discussion.reply"
    ∷ "discussion.edit" ∷ "proposal.create" ∷ "proposal.revise" ∷ "project.create" ∷ "project.edit"
    ∷ "project-item.create" ∷ "project-item.edit" ∷ "workflow.create" ∷ "workflow.edit" ∷ []

abbrev pub author_operations : List String
author_operations =
    "issue.edit" ∷ "discussion.edit" ∷ "proposal.revise" ∷ "project.edit" ∷ "project-item.edit"
    ∷ "workflow.edit" ∷ []

unfoldable pub content_operation : String → Bool
content_operation op = mem op content_operations

unfoldable pub author_operation : String → Bool
author_operation op = mem op author_operations

-- `listed` of policy.go is `mem`, with the arguments in the same order.

-- The loop of `Validate`, with the set of operations seen.
unfoldable pub validate_rules : List String → List Rule → Checked
validate_rules seen [] = ok tt
validate_rules seen (r ∷ rules) =
    refuse
      (not (content_operation r.operation)
        || mem r.operation seen
        || not (valid_actors r.actors max_links))
      (errorf "invalid or duplicate operation rule" [])
    >> validate_rules (r.operation ∷ seen) rules

unfoldable pub validate_contributions : ContributionPolicy → Checked
validate_contributions p = do
  refuse
      (not (valid_id p.project)
        || eqb (length p.moderators) 0
        || not (valid_actors p.moderators max_links)
        || not (valid_actors p.revoked_moderators max_links)
        || not (valid_ids p.baseline max_graph_records)
        || ltb 32 (length p.rules))
      (errorf "invalid project policy" [])
  validate_rules [] p.rules
  validate_limits p.limits

unfoldable pub validate_ref : AuthorityRef → Checked
validate_ref r = refuse (not (valid_oid r.commit) || not (valid_id r.digest)) err_authority

-- `(a Authority) validate`, past its test for a missing policy.
unfoldable pub validate_authority : Authority → ContributionPolicy → Checked
unfolding validate_ref
validate_authority a p = do
  validate_ref a.ref
  refuse (eqb (length a.maintainers) 0 || not (valid_actors a.maintainers max_links)) err_authority
  validate_contributions p

abbrev pub no_permission : Permission
no_permission = record {
  allowed = false;
  automatic = false;
  legacy = false;
  requires_native_authority = false;
  reason = "";
}

abbrev pub deny : String → Result Permission
deny why = ok (record no_permission { reason = why })

abbrev pub native_operation : String → Bool
native_operation op =
    op == "native.review" || op == "native.execute" || op == "native.accept" || op == "native.merge"

-- One rule for the operation, once the policy is in force.
unfoldable pub apply_rule : Authority → Request → Rule → Result Permission
apply_rule a r rule =
    let maintainer = rule.allow_maintainers && mem r.actor a.maintainers in
    if ltb 0 (length rule.actors) && not (mem r.actor rule.actors) && not maintainer
    then deny "operation actor not permitted"
    else if author_operation r.operation && not (r.actor == r.author) && not maintainer
    then deny "original author required"
    else if not rule.automatic && not r.manual
    then ok (record no_permission { reason = "project moderator admission required" })
    else ok (record no_permission { allowed = true; automatic = rule.automatic && not r.manual })

-- The loop over the rules: the first rule for the operation decides.
unfoldable pub apply_rules : Authority → Request → List Rule → Result Permission
unfolding apply_rule
apply_rules a r [] = deny "no explicit operation rule"
apply_rules a r (rule ∷ rules) =
    if not (rule.operation == r.operation) then apply_rules a r rules else apply_rule a r rule

-- What a valid policy that is in force permits.
unfoldable pub evaluate_valid : Authority → ContributionPolicy → Request → Result Permission
unfolding apply_rules
evaluate_valid a p r =
    if native_operation r.operation
    then ok (record no_permission {
      requires_native_authority = true;
      reason = "existing native authority and evidence required";
    })
    else if r.operation == "moderate" && mem r.actor p.revoked_moderators
    then deny "actor explicitly revoked"
    else if r.operation == "moderate"
    then (if not (mem r.actor p.moderators)
        then deny "current moderator required"
        else ok (record no_permission { allowed = true }))
    else if not r.verified || not r.dependencies_admitted || not r.receipt
    then deny "authenticated content, admitted dependencies and durable intake receipt required"
    else if r.manual && (not (mem r.moderator p.moderators) || mem r.moderator p.revoked_moderators)
    then deny "evaluated moderator required for manual admission"
    else apply_rules a r p.rules

unfoldable pub evaluate_under : Authority → ContributionPolicy → Request → Result Permission
unfolding evaluate_valid
evaluate_under a p r = validate_authority a p >> evaluate_valid a p r

unfoldable pub evaluate : Authority → Request → Result Permission
unfolding evaluate_under
evaluate a r =
    if not (valid_actor r.actor)
    then deny "invalid actor"
    else if r.operation == "prepare"
    then ok
        (record no_permission { allowed = true; reason = "local preparation grants no authority" })
    else if r.operation == "transport"
    then (if not r.verified
        then deny "native transport authentication required"
        else ok (record no_permission { allowed = true }))
    else if not (content_operation r.operation)
        && not (r.operation == "moderate")
        && not (native_operation r.operation)
    then deny "unsupported operation"
    else elim a.policy [
      | none ↦
          if r.operation == "moderate"
          then deny "contributions disabled"
          else ok (record no_permission {
            allowed = true;
            legacy = true;
            requires_native_authority = not (content_operation r.operation);
          })
      | some p ↦ evaluate_under a p r
    ]
