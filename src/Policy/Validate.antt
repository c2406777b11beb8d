-- ===== src/Policy/Validate.antt =====
-- policy.go, protected_checks.go and audit_authority.go: the check of a policy document.
use hubnot.Prelude.{
  String, Bool, true, false, not, ◌&&◌, ◌||◌, List, [], ◌∷◌, Option, none, some, ◌==◌, ltb, eqb,
  length, ok, err, errorf, str, num, Checked, refuse, ◌>>◌, lt_int, int_lt,
}
use hubnot.Prelude.Strings.{mem, str_ltb}
use hubnot.Policy.Document.{ProtectedChecksPolicy, AutomergeRule, PolicyDocument, actor_listed}
use hubnot.Policy.Texts.{
  valid_actor_id, valid_pipeline_name, valid_policy_branch, valid_literal_path, concat,
}

-- The loop of `validateActorList`, with the actors seen.
unfoldable pub validate_actors : String → List String → List String → Checked
validate_actors name seen [] = ok tt
validate_actors name seen (actor ∷ actors) = do
  refuse (not (valid_actor_id actor))
      (errorf "%s contains invalid actor %q" (str name ∷ str actor ∷ []))
  refuse (mem actor seen) (errorf "%s contains duplicate actor %s" (str name ∷ str actor ∷ []))
  validate_actors name (actor ∷ seen) actors

unfoldable pub validate_actor_list : String → List String → Checked
unfolding validate_actors
validate_actor_list name actors = validate_actors name [] actors

-- `sort.StringsAreSorted`
unfoldable pub strings_are_sorted : List String → Bool
strings_are_sorted [] = true
strings_are_sorted (x ∷ []) = true
strings_are_sorted (x ∷ y ∷ xs) = not (str_ltb y x) && strings_are_sorted (y ∷ xs)

unfoldable pub validate_sorted_actor_list : String → List String → Checked
unfolding validate_actor_list strings_are_sorted
validate_sorted_actor_list name actors = do
  validate_actor_list name actors
  refuse (not (strings_are_sorted actors)) (errorf "%s must be sorted" (str name ∷ []))

unfoldable pub valid_memory_kind : String → Bool
valid_memory_kind kind =
    kind == "observation"
    || kind == "decision"
    || kind == "assumption"
    || kind == "attempt"
    || kind == "verification"
    || kind == "handoff"

unfoldable pub validate_kinds : List String → List String → Checked
validate_kinds seen [] = ok tt
validate_kinds seen (kind ∷ kinds) = do
  refuse (not (valid_memory_kind kind))
      (errorf "memory trustedKinds contains invalid kind %q" (str kind ∷ []))
  refuse (mem kind seen) (errorf "memory trustedKinds contains duplicate kind %s" (str kind ∷ []))
  validate_kinds (kind ∷ seen) kinds

unfoldable pub validate_memory_kind_list : List String → Checked
unfolding validate_kinds strings_are_sorted
validate_memory_kind_list kinds = do
  validate_kinds [] kinds
  refuse (not (strings_are_sorted kinds)) (errorf "memory trustedKinds must be sorted" [])

-- The loop of `validatePolicyPaths`, with the paths seen.
unfoldable pub validate_paths : String → List String → List String → Checked
validate_paths label seen [] = ok tt
validate_paths label seen (p ∷ paths) = do
  refuse (not (valid_literal_path p))
      (errorf "%s contains invalid literal path %q" (str label ∷ str p ∷ []))
  refuse (mem p seen) (errorf "%s contains duplicate path %q" (str label ∷ str p ∷ []))
  validate_paths label (p ∷ seen) paths

unfoldable pub validate_policy_paths : String → Option (List String) → Bool → Checked
unfolding validate_paths
validate_policy_paths label none nonempty =
    err
      (errorf "%s requires an explicit array of at most %d literal paths" (str label ∷ num 64 ∷ []))
validate_policy_paths label (some paths) nonempty = do
  refuse (ltb 64 (length paths) || (nonempty && eqb (length paths) 0))
      (errorf "%s requires an explicit array of at most %d literal paths" (str label ∷ num 64 ∷ []))
  validate_paths label [] paths

unfoldable pub validate_protected_checks : ProtectedChecksPolicy → Checked
unfolding validate_policy_paths validate_actor_list
validate_protected_checks p = do
  validate_policy_paths "protectedChecks paths" p.paths false
  refuse (ltb (length p.trusted_reviewers) 1 || ltb 64 (length p.trusted_reviewers))
      (errorf "protectedChecks requires 1 to %d trustedReviewers" (num 64 ∷ []))
  validate_actor_list "protectedChecks trustedReviewers" p.trusted_reviewers
  refuse (int_lt p.required_approvals 1 || lt_int (length p.trusted_reviewers) p.required_approvals)
      (errorf "protectedChecks requiredApprovals must be between 1 and trusted reviewer count" [])

-- One label of the inner loop over `actors` and `authors`; the map is ranged in this order here.
unfoldable pub validate_rule_actors : String → String → List String → Checked
unfolding validate_actor_list
validate_rule_actors name label actors = do
  refuse (ltb (length actors) 1 || ltb 64 (length actors))
      (errorf "automerge rule %q requires 1 to %d %s" (str name ∷ num 64 ∷ str label ∷ []))
  validate_actor_list (concat "automerge " label) actors

unfoldable pub validate_rule_maintainers : String → List String → List String → Checked
unfolding actor_listed
validate_rule_maintainers name maintainers [] = ok tt
validate_rule_maintainers name maintainers (actor ∷ actors) =
    refuse (not (actor_listed actor maintainers))
      (errorf "automerge rule %q actor %s is not a maintainer" (str name ∷ str actor ∷ []))
    >> validate_rule_maintainers name maintainers actors

unfoldable pub validate_automerge_rules : List String → List String → List AutomergeRule → Checked
unfolding validate_rule_actors validate_rule_maintainers validate_policy_paths
validate_automerge_rules maintainers names [] = ok tt
validate_automerge_rules maintainers names (r ∷ rules) = do
  refuse (not (valid_pipeline_name r.name) || mem r.name names)
      (errorf "automerge has invalid or duplicate rule name %q" (str r.name ∷ []))
  refuse (not (valid_policy_branch r.target_branch)) (
      errorf "automerge rule %q has invalid targetBranch %q"
        (str r.name ∷ str r.target_branch ∷ []))
  validate_rule_actors r.name "actors" r.actors
  validate_rule_actors r.name "authors" r.authors
  validate_rule_maintainers r.name maintainers r.actors
  validate_policy_paths (concat "automerge rule " (concat r.name " paths")) r.paths true
  validate_automerge_rules maintainers (r.name ∷ names) rules

unfoldable pub validate_optional_policy : PolicyDocument → Checked
unfolding validate_protected_checks validate_automerge_rules
validate_optional_policy policy = do
  elim policy.protected_checks [ none ↦ ok tt | some p ↦ validate_protected_checks p ]
  elim policy.automerge [
    | none ↦ ok tt
    | some p ↦
        refuse (ltb (length p.rules) 1 || ltb 64 (length p.rules))
          (errorf "automerge requires 1 to %d rules" (num 64 ∷ []))
        >> validate_automerge_rules policy.maintainers [] p.rules
  ]
