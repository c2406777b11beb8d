-- ===== src/Tests/Policy.antt =====
-- policy.go and protected_checks.go on a proposal that changes the policy, with its review, its run,
-- its decision and its merge.
use hubnot.Prelude.{
  ◌≡◌, refl, true, false, String, List, [], ◌∷◌, none, some, ok, pos, All, has, select,
}
use hubnot.Prelude.Strings.{mem, distinct, str_ltb}
use hubnot.Prelude.Maps.{Dict, keys, lookup, insert, slices, push, each}
use hubnot.Prelude.Sort.{sort_strings, sort_by, place}
use hubnot.Event.{StoredEvent, zero_event, stored, is_proposal_kind}
use hubnot.Event.Ids.{hex_decoded}
use hubnot.Event.Order.{earlier, sort_stored_events}
use hubnot.Lineage.{
  ProposalLineageState, build_lineage_index, collect_proposals, link_all, link, sort_links,
  validate_acyclic, visit, visit_all, lineage_state, root, climb, require_proposal, predecessor,
  successors, siblings, ancestors, collect_ancestors, descendants, collect_descendants, push_stack,
  members, merged_members, candidate,
}
use hubnot.Policy.Document.{PolicyDocument, ProtectedChecksPolicy, actor_listed, may_request_run}
use hubnot.Policy.Texts.{
  valid_actor_id, valid_pipeline_name, contains_func, trim_suffix, ends_with, pipeline_path,
}
use hubnot.Policy.Validate.{
  validate_actors, validate_actor_list, validate_paths, validate_policy_paths,
  validate_protected_checks, validate_optional_policy,
}
use hubnot.Policy.Check.{
  validate_opening, validate_checkpoints, validate_audit_policy, validate_proposals,
  validate_requesters, validate_pipelines, validate_optional_memory, validate_policy,
}
use hubnot.Policy.Check.Sound.{Demands, validate_policy-Demands}
use hubnot.Policy.Latest.{
  note_latest, latest_by_actor, is_review_of, current_reviews, is_result_of, current_run_results,
}
use hubnot.Policy.Latest.Exact.{IsCurrent, current_reviews-IsCurrent, current_run_results-IsCurrent}
use hubnot.Policy.Protected.{
  unique_strings, sorted_unique_strings, protected_path_matches, protected_paths,
  changed_protected_paths, protection_review_qualifies, evaluate_protected_checks,
}
use hubnot.Policy.Admit.{Repository, validate_decision_event, validate_merge_event}
use hubnot.Policy.Evaluate.{
  ProposalEvaluation, review_trusted, trusted_reviews, evaluate_pipelines, decision_counts,
  current_decisions, merge_events_of, base_ready, protection_of, conclude, assess, evaluate_visible,
}
use hubnot.Policy.Evaluate.Results.{request_matches, latest_by_runner, evaluate_pipeline_results}
use hubnot.Policy.Evaluate.Facts.{Known}
use hubnot.Policy.Agree.Merges.{sorted_decision_ids, accepted_merges}
use hubnot.Policy.Agree.Decides.{ready_decides}
use hubnot.Policy.Agree.Guarded.{Guarded, policy_file_protected, ready_guards_policy}

abbrev alice : String
alice = "000000000000000000000000000000000000000000000000000000000000000a"

abbrev bob : String
bob = "000000000000000000000000000000000000000000000000000000000000000b"

abbrev carol : String
carol = "000000000000000000000000000000000000000000000000000000000000000c"

abbrev protection : ProtectedChecksPolicy
protection = record { paths = some []; trusted_reviewers = bob ∷ []; required_approvals = pos 1 }

abbrev policy : PolicyDocument
policy = record {
  contributions = none;
  contribution_checkpoints = [];
  version = "hn.policy/0";
  maintainers = alice ∷ [];
  proposals = record {
    required_approvals = pos 1;
    required_accepts = pos 1;
    trusted_reviewers = bob ∷ [];
    allow_author_approval = false;
  };
  pipelines =
      ("ci", record { required_results = pos 1; trusted_runners = carol ∷ []; requesters = none })
      ∷ [];
  memory = none;
  protected_checks = some protection;
  automerge = none;
  audits = none;
}

checks : validate_policy policy ≡ ok tt
unfolding validate_policy validate_opening validate_checkpoints validate_audit_policy
    validate_proposals validate_requesters validate_pipelines validate_optional_memory
    validate_actors validate_actor_list validate_paths validate_policy_paths
    validate_protected_checks validate_optional_policy valid_actor_id valid_pipeline_name
    contains_func hex_decoded mem
checks = refl

validate_policy-Demands_example : Demands policy
validate_policy-Demands_example = validate_policy-Demands policy checks

abbrev changed : List String
changed = ".hn/policy.json" ∷ []

abbrev repository : Repository
repository = record {
  load_policy = λ commit. ok (policy, "digest");
  load_pipeline = λ commit name. ok "definition";
  proposal_head = λ id. ok (some "head");
  changed_paths = λ base head. ok changed;
}

abbrev proposal : StoredEvent
proposal =
    stored "p"
      (record zero_event { kind = "proposal.open"; actor = carol; base = "base"; head = "head" })

abbrev review : StoredEvent
review = stored "v" (record zero_event {
  kind = "review.submit";
  actor = bob;
  subject = "p";
  verdict = "approve";
  sequence = 1;
})

abbrev request : StoredEvent
request = stored "q" (record zero_event {
  kind = "run.request";
  actor = alice;
  subject = "p";
  pipeline = "ci";
  definition = "definition";
  sequence = 1;
})

abbrev result : StoredEvent
result = stored "r" (record zero_event {
  kind = "run.result";
  actor = carol;
  subject = "q";
  outcome = "passed";
  sequence = 2;
})

abbrev decision : StoredEvent
decision = stored "d" (record zero_event {
  kind = "proposal.decision";
  actor = alice;
  subject = "p";
  verdict = "accept";
  policy = "digest";
  evidence = "r" ∷ "v" ∷ [];
  sequence = 2;
})

abbrev merge : StoredEvent
merge = stored "m" (record zero_event {
  kind = "proposal.merged";
  actor = alice;
  subject = "p";
  policy = "digest";
  evidence = "d" ∷ [];
})

abbrev events : List StoredEvent
events = proposal ∷ review ∷ request ∷ result ∷ decision ∷ []

abbrev by_id : Dict StoredEvent
by_id = ("p", proposal) ∷ ("v", review) ∷ ("q", request) ∷ ("r", result) ∷ ("d", decision) ∷ []

known : All (Known by_id) events
unfolding lookup
known = ((refl, refl), ((refl, refl), ((refl, refl), ((refl, refl), ((refl, refl), tt)))))

once : distinct (keys policy.pipelines) ≡ true
unfolding distinct mem
once = refl

policy_file_protected_example :
    mem ".hn/policy.json" (changed_protected_paths policy changed) ≡ true
policy_file_protected_example =
    policy_file_protected policy protection changed refl (unfold mem in refl)

current_reviews-IsCurrent_example : IsCurrent (is_review_of "p") events (current_reviews events "p")
current_reviews-IsCurrent_example = current_reviews-IsCurrent events "p"

current_run_results-IsCurrent_example :
    IsCurrent (is_result_of "q") events (current_run_results events "q")
current_run_results-IsCurrent_example = current_run_results-IsCurrent events "q"

abbrev lineage : ProposalLineageState
lineage = record {
  proposal_id = "p";
  predecessor_id = "";
  successor_ids = [];
  sibling_ids = [];
  root_id = "p";
  ancestor_ids = [];
  descendant_ids = [];
  member_ids = "p" ∷ [];
  merge_event_ids = [];
  merged_candidate_ids = [];
  merged = false;
  superseded = false;
  lineage_closed = false;
  merge_conflict = false;
}

abbrev evaluation : ProposalEvaluation
evaluation = record {
  proposal = proposal;
  display_title = "";
  lineage = lineage;
  policy = policy;
  policy_digest = "digest";
  code_available = true;
  code_matches = true;
  approvals = review ∷ [];
  change_requests = [];
  pipelines = record { name = "ci"; required = pos 1; passed = result ∷ []; failed = [] } ∷ [];
  accept_decisions = decision ∷ [];
  reject_decisions = [];
  merge_events = [];
  ready = true;
  accepted = true;
  rejected = false;
  merged = false;
  evidence = "r" ∷ "v" ∷ [];
  protected_checks =
      some (record { changed_paths = changed; required = pos 1; approvals = review ∷ [] });
}

evaluates : evaluate_visible repository proposal events ≡ ok evaluation
unfolding evaluate_visible assess conclude build_lineage_index collect_proposals link_all link
    sort_links validate_acyclic visit visit_all lineage_state root climb require_proposal
    predecessor successors siblings ancestors collect_ancestors descendants collect_descendants
    push_stack members merged_members candidate trusted_reviews review_trusted evaluate_pipelines
    decision_counts current_decisions merge_events_of base_ready protection_of
    evaluate_pipeline_results request_matches latest_by_runner evaluate_protected_checks
    changed_protected_paths protected_paths protected_path_matches protection_review_qualifies
    sorted_unique_strings unique_strings note_latest latest_by_actor is_review_of current_reviews
    is_result_of current_run_results actor_listed may_request_run sort_stored_events earlier
    sort_strings sort_by place str_ltb mem has select lookup insert slices push each
    is_proposal_kind trim_suffix ends_with pipeline_path
evaluates = refl

maintained : actor_listed alice policy.maintainers ≡ true
unfolding actor_listed mem
maintained = refl

ready_decides_example : validate_decision_event repository decision proposal by_id ≡ ok tt
ready_decides_example =
    ready_decides repository proposal decision events by_id evaluation known once evaluates refl
      refl maintained refl

named : merge.event.evidence ≡ sorted_decision_ids evaluation.accept_decisions
unfolding sorted_decision_ids sort_strings sort_by place
named = refl

accepted_merges_example : validate_merge_event repository merge proposal by_id ≡ ok tt
accepted_merges_example =
    accepted_merges repository proposal merge events by_id evaluation known evaluates refl refl
      maintained named

ready_guards_policy_example : Guarded protection proposal events
ready_guards_policy_example =
    ready_guards_policy repository proposal events by_id evaluation protection changed known
      evaluates refl refl refl (unfold mem in refl)
