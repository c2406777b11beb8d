-- ===== src/Tests/Contribution.antt =====
-- internal/contribution on a small project: a policy, a ledger, a rollover and some requests.
use hubnot.Prelude.{◌≡◌, refl, true, false, String, [], ◌∷◌, ◌++◌, some, ok, pos, has}
use hubnot.Prelude.Strings.{mem, str_ltb}
use hubnot.Prelude.Int64.{add64, sub64}
use hubnot.Contribution.Checks.{
  valid_hex, valid_id, valid_actor, valid_oid, bounded_text, ascending, valid_ids, valid_actors,
}
use hubnot.Contribution.Quota.{
  Cost, Usage, no_usage, usage_positive, usage_nonnegative, usage_within, validate_cost,
  validate_limits, cost_within, add_usage, charge, cost_eqb, usage_eqb,
}
use hubnot.Contribution.Rules.{
  ContributionPolicy, Authority, Request, Permission, content_operation, author_operation,
  validate_rules, validate_contributions, validate_ref, validate_authority, apply_rule, apply_rules,
  evaluate_valid, evaluate_under, evaluate, no_permission,
}
use hubnot.Contribution.Rules.Permits.{Admitted, evaluate_content, evaluate_moderate}
use hubnot.Contribution.Ledger.{
  Ledger, collect_windows, count_reservation, count_reservations, validate_ledger, find_intent,
  reserve, rollover,
}
use hubnot.Contribution.Ledger.Reserving.{
  reservation, reserve_valid, reserve_again, reserve_charges,
}
use hubnot.Contribution.Ledger.Billing.{InRange, Billed}
use hubnot.Contribution.Ledger.Rolling.{Step, Steps, new_ledger, reachable_valid}

abbrev project : String
project = "sha256:0000000000000000000000000000000000000000000000000000000000000001"

abbrev artifact : String
artifact = "sha256:0000000000000000000000000000000000000000000000000000000000000002"

abbrev alice : String
alice = "000000000000000000000000000000000000000000000000000000000000000a"

abbrev bob : String
bob = "000000000000000000000000000000000000000000000000000000000000000b"

abbrev budget : Usage
budget = record { bytes = pos 1000000; objects = pos 100; events = pos 100; requests = pos 10 }

abbrev policy : ContributionPolicy
policy = record {
  project = project;
  moderators = alice ∷ [];
  revoked_moderators = bob ∷ [];
  rules =
      record {
        operation = "issue.create";
        automatic = true;
        actors = [];
        allow_maintainers = false;
      }
      ∷ [];
  baseline = [];
  limits = record {
    wire_bytes = pos 1000;
    decoded_bytes = pos 1000;
    objects = pos 10;
    events = pos 10;
    depth = pos 10;
    milliseconds = pos 1000;
    window = budget;
    retained = budget;
  };
}

abbrev cost : Cost
cost = record {
  wire_bytes = pos 10;
  decoded_bytes = pos 20;
  objects = pos 1;
  events = pos 2;
  depth = pos 3;
  milliseconds = pos 4;
}

abbrev used : Usage
used = record { bytes = pos 4126; objects = pos 1; events = pos 2; requests = pos 1 }

abbrev empty : Ledger
empty = new_ledger project "w1"

abbrev reserved : Ledger
reserved = record empty {
  window_used = used;
  retained_used = used;
  reservations = reservation empty "intent" artifact cost ∷ [];
}

abbrev rolled_over : Ledger
rolled_over = record reserved { prior_windows = "w1" ∷ []; window = "w2"; window_used = no_usage }

reserves : reserve empty policy "intent" artifact cost ≡ ok (reserved, false)
unfolding reserve validate_contributions validate_rules validate_limits validate_ledger
    validate_cost usage_positive usage_nonnegative usage_within cost_within add_usage charge
    collect_windows count_reservations find_intent content_operation valid_id valid_hex bounded_text
    valid_ids valid_actors ascending valid_actor mem add64 sub64 usage_eqb cost_eqb
reserves = refl

rolls : rollover reserved policy "w1" "w2" true ≡ ok rolled_over
unfolding rollover validate_contributions validate_rules validate_limits validate_ledger
    validate_cost usage_positive usage_nonnegative usage_within cost_within add_usage charge
    collect_windows count_reservations count_reservation find_intent content_operation valid_id
    valid_hex bounded_text valid_ids valid_actors ascending valid_actor mem add64 sub64 usage_eqb
    cost_eqb has
rolls = refl

reserve_valid_example : validate_ledger reserved ≡ ok tt
reserve_valid_example = reserve_valid empty policy "intent" artifact cost reserved false reserves

reserve_again_example : reserve reserved policy "intent" artifact cost ≡ ok (reserved, true)
reserve_again_example = reserve_again empty policy "intent" artifact cost reserved reserves

cost-InRange : InRange cost
cost-InRange = record { wire = refl; decoded = refl; objects = refl; events = refl }

reserve_charges_example :
    (reserved.reservations ≡ [] ++ reservation empty "intent" artifact cost ∷ [])
    × Billed cost no_usage used budget
    × Billed cost no_usage used budget
    × (reserved.project ≡ empty.project)
    × (reserved.window ≡ empty.window)
    × (reserved.prior_windows ≡ empty.prior_windows)
reserve_charges_example =
    reserve_charges empty policy "intent" artifact cost reserved cost-InRange reserves

reachable_valid_example : validate_ledger rolled_over ≡ ok tt
reachable_valid_example = reachable_valid project "w1" rolled_over named bounded (
    Steps.then (Step.reserving policy "intent" artifact cost false reserves)
      (Steps.then (Step.rolling policy "w1" "w2" true rolls) Steps.done))
  where
    named : valid_id project ≡ true
    named = unfold valid_id valid_hex in refl

    bounded : bounded_text "w1" 128 ≡ true
    bounded = unfold bounded_text in refl

abbrev authority : Authority
authority = record {
  ref = record { commit = "00000000000000000000000000000000000000ff"; digest = artifact };
  policy = some policy;
  maintainers = alice ∷ [];
}

abbrev request : String → String → Request
request operation actor = record {
  operation = operation;
  actor = actor;
  author = actor;
  verified = true;
  dependencies_admitted = true;
  receipt = true;
  manual = false;
  moderator = "";
}

abbrev automatic : Permission
automatic = record no_permission { allowed = true; automatic = true }

creates : evaluate authority (request "issue.create" bob) ≡ ok automatic
unfolding evaluate evaluate_under evaluate_valid apply_rules apply_rule author_operation
    content_operation validate_authority validate_ref validate_contributions validate_rules
    validate_limits validate_cost usage_positive valid_id valid_oid valid_hex valid_ids valid_actors
    ascending valid_actor mem str_ltb sub64
creates = refl

evaluate_content_example : Admitted authority policy (request "issue.create" bob) automatic
evaluate_content_example =
    evaluate_content authority policy (request "issue.create" bob) automatic refl listed creates
      refl
  where
    listed : content_operation "issue.create" ≡ true
    listed = unfold content_operation mem in refl

moderates :
    evaluate authority (request "moderate" alice) ≡ ok (record no_permission { allowed = true })
unfolding evaluate evaluate_under evaluate_valid content_operation validate_authority validate_ref
    validate_contributions validate_rules validate_limits validate_cost usage_positive valid_id
    valid_oid valid_hex valid_ids valid_actors ascending valid_actor mem str_ltb sub64
moderates = refl

evaluate_moderate_example :
    (mem alice policy.moderators ≡ true) × (mem alice policy.revoked_moderators ≡ false)
evaluate_moderate_example =
    evaluate_moderate authority policy (request "moderate" alice)
      (record no_permission { allowed = true }) refl refl moderates refl
