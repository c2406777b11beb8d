-- ===== src/Policy/Protected.antt =====
-- protected_checks.go: the paths that a policy protects, and the approvals that they need.
use text.Mathlib.Text.{starts_with}
use hubnot.Prelude.{
  String, Bool, not, ◌&&◌, ◌||◌, List, [], ◌∷◌, ◌++◌, map, Option, none, some, ◌==◌, if◌then◌else◌,
  has, select, length, lt_int, is_empty, ℤ, Checked, ok, errorf, str, refuse,
}
use hubnot.Prelude.Strings.{mem}
use hubnot.Prelude.Maps.{Dict, lookup, keys}
use hubnot.Prelude.Sort.{sort_strings}
use hubnot.Event.{StoredEvent}
use hubnot.Policy.Document.{PolicyDocument, ProtectedChecksPolicy, or_nil, actor_listed}
use hubnot.Policy.Texts.{ends_with, trim_suffix, pipeline_path, concat}
use hubnot.Policy.Latest.{current_reviews}

-- The loop of `sortedUniqueStrings` (identity_continuity.go), with the values seen.
unfoldable pub unique_strings : List String → List String → List String
unique_strings seen [] = []
unique_strings seen (value ∷ values) =
    if value == "" || mem value seen
    then unique_strings seen values
    else value ∷ unique_strings (value ∷ seen) values

unfoldable pub sorted_unique_strings : List String → List String
unfolding unique_strings
sorted_unique_strings values = sort_strings (unique_strings [] values)

-- `protectedPathMatches`
unfoldable pub protected_path_matches : String → String → Bool
unfolding trim_suffix ends_with
protected_path_matches protected changed =
    let literal = trim_suffix protected "/" in
    changed == literal
    || starts_with literal (concat changed "/")
    || (ends_with protected "/" && starts_with changed protected)

unfoldable pub protected_paths : PolicyDocument → List String
unfolding sorted_unique_strings pipeline_path
protected_paths policy = elim policy.protected_checks [
  | none ↦ []
  | some p ↦
      sorted_unique_strings
        (or_nil p.paths ++ ".hn/policy.json" ∷ map pipeline_path (keys policy.pipelines))
]

unfoldable pub changed_protected_paths : PolicyDocument → List String → List String
unfolding protected_paths protected_path_matches
changed_protected_paths policy changed =
    select (λ p. has (λ protected. protected_path_matches protected p) (protected_paths policy))
      changed

-- `protectionReviewQualifies`, for a protection that is there.
unfoldable pub protection_review_qualifies :
    StoredEvent → StoredEvent → ProtectedChecksPolicy → Bool
unfolding actor_listed
protection_review_qualifies review proposal protection =
    review.event.kind == "review.submit"
    && review.event.subject == proposal.id
    && review.event.verdict == "approve"
    && not (review.event.actor == proposal.event.actor)
    && actor_listed review.event.actor protection.trusted_reviewers

pub record ProtectedChecksEvaluation : Type 0 where
  pub changed_paths : List String
  pub required : ℤ
  pub approvals : List StoredEvent

unfoldable pub evaluate_protected_checks :
    PolicyDocument → StoredEvent → List StoredEvent → List String → Option ProtectedChecksEvaluation
unfolding changed_protected_paths protection_review_qualifies
evaluate_protected_checks policy proposal events changed = elim policy.protected_checks [
  | none ↦ none
  | some p ↦ some (record {
    changed_paths = changed_protected_paths policy changed;
    required = p.required_approvals;
    approvals =
        select (λ review. protection_review_qualifies review proposal p)
          (current_reviews events proposal.id);
  })
]

-- `actors[review.Event.Actor] = true` for the evidence that qualifies; a set is a list without
-- repetitions.
unfoldable pub add_actor : String → List String → List String
add_actor actor actors = if mem actor actors then actors else actor ∷ actors

abbrev pub note_evidence : (StoredEvent → Bool) → Option StoredEvent → List String → List String
note_evidence qualifies none actors = actors
note_evidence qualifies (some stored) actors =
    if qualifies stored then add_actor stored.event.actor actors else actors

unfoldable pub evidence_actors :
    (StoredEvent → Bool) → Dict StoredEvent → List String → List String → List String
unfolding add_actor
evidence_actors qualifies by_id actors [] = actors
evidence_actors qualifies by_id actors (id ∷ evidence) =
    evidence_actors qualifies by_id (note_evidence qualifies (lookup id by_id) actors) evidence

unfoldable pub validate_protected_decision_evidence :
    PolicyDocument → StoredEvent → StoredEvent → Dict StoredEvent → List String → Checked
unfolding changed_protected_paths protection_review_qualifies evidence_actors
validate_protected_decision_evidence policy decision proposal by_id changed =
    elim policy.protected_checks [
      | none ↦ ok tt
      | some p ↦
          if is_empty (changed_protected_paths policy changed)
          then ok tt
          else refuse
              (lt_int
                (length (
                  evidence_actors (λ review. protection_review_qualifies review proposal p) by_id []
                    decision.event.evidence))
                p.required_approvals)
              (errorf "decision %s lacks required protected check approval evidence"
                (str decision.id ∷ []))
    ]
