-- ===== src/Contribution/Rules/Permits.antt =====
-- internal/contribution/policy.go: about `Evaluate`.
use hubnot.Prelude.{
  ◌≡◌, refl, ap, arith, true, false, not, ◌&&◌, ◌||◌, String, List, [], ◌∷◌, some, ok, ◌>>=◌,
  >>=-eq-ok, ◌==◌, eq_iff, ltb, length, Bool-cases, inl, inr,
}
use hubnot.Prelude.Strings.{mem}
use hubnot.Contribution.Checks.{valid_actor}
use hubnot.Contribution.Rules.{
  Rule, ContributionPolicy, Authority, Request, Permission, content_operation, author_operation,
  native_operation, validate_authority, apply_rule, apply_rules, evaluate_valid, evaluate_under,
  evaluate,
}

-- An operation on content is none of the others.
content_apart :
    (op other : String)
    → content_operation other ≡ false
    → content_operation op ≡ true
    → (op == other) ≡ false
content_apart op other out into = elim (Bool-cases (op == other)) [
  | inl same ↦
      let e : op ≡ other = ground (arith, eq_iff op other) in
      absurd ground (arith, ap content_operation e)
  | inr f ↦ f
]

-- A rule for the operation that lets the request through.
pub record Grants (a : Authority) (r : Request) (rule : Rule) : Type 0 where
  pub same_operation : rule.operation ≡ r.operation
  pub actor_permitted :
      (ltb 0 (length rule.actors)
        && not (mem r.actor rule.actors)
        && not (rule.allow_maintainers && mem r.actor a.maintainers))
      ≡ false
  pub author_kept :
      (author_operation r.operation
        && not (r.actor == r.author)
        && not (rule.allow_maintainers && mem r.actor a.maintainers))
      ≡ false
  pub admitted : (rule.automatic || r.manual) ≡ true

-- The first rule for the operation lets the request through.
pub data Granted (a : Authority) (r : Request) : List Rule → Type 0 where
  first : (rule : Rule) (rules : List Rule) → Grants a r rule → Granted a r (rule ∷ rules)
  later :
      (rule : Rule) (rules : List Rule)
      → (rule.operation == r.operation) ≡ false
      → Granted a r rules
      → Granted a r (rule ∷ rules)

apply_rules-Granted :
    (a : Authority) (r : Request) (rules : List Rule) (perm : Permission)
    → apply_rules a r rules ≡ ok perm
    → perm.allowed ≡ true
    → Granted a r rules
unfolding apply_rules apply_rule
apply_rules-Granted a r [] perm run allowed = absurd ground arith
apply_rules-Granted a r (rule ∷ rules) perm run allowed =
    elim (Bool-cases (rule.operation == r.operation)) [
      | inl same ↦ Granted.first rule rules (record {
        same_operation = ground (arith, eq_iff rule.operation r.operation);
        actor_permitted = ground arith;
        author_kept = ground arith;
        admitted = ground arith;
      })
      | inr other ↦
          Granted.later rule rules other (apply_rules-Granted a r rules perm (ground arith) allowed)
    ]

apply_rules-current :
    (a : Authority) (r : Request) (rules : List Rule) (perm : Permission)
    → apply_rules a r rules ≡ ok perm
    → (perm.legacy ≡ false) × (perm.requires_native_authority ≡ false)
unfolding apply_rules apply_rule
apply_rules-current a r [] perm run = (ground arith, ground arith)
apply_rules-current a r (rule ∷ rules) perm run =
    elim (Bool-cases (rule.operation == r.operation)) [
      | inl same ↦ (ground arith, ground arith)
      | inr other ↦ apply_rules-current a r rules perm (ground arith)
    ]

-- What a permission for an operation on content rests on.
pub record Admitted (a : Authority) (p : ContributionPolicy) (r : Request) (perm : Permission)
    : Type 0 where
  pub known_actor : valid_actor r.actor ≡ true
  pub authority : validate_authority a p ≡ ok tt
  pub verified : r.verified ≡ true
  pub dependencies : r.dependencies_admitted ≡ true
  pub receipt : r.receipt ≡ true
  pub moderated :
      (r.manual && (not (mem r.moderator p.moderators) || mem r.moderator p.revoked_moderators))
      ≡ false
  pub granted : Granted a r p.rules
  pub current : perm.legacy ≡ false
  pub own : perm.requires_native_authority ≡ false

valid_content :
    (a : Authority) (p : ContributionPolicy) (r : Request) (perm : Permission)
    → valid_actor r.actor ≡ true
    → validate_authority a p ≡ ok tt
    → native_operation r.operation ≡ false
    → (r.operation == "moderate") ≡ false
    → evaluate_valid a p r ≡ ok perm
    → perm.allowed ≡ true
    → Admitted a p r perm
unfolding evaluate_valid
valid_content a p r perm known authority native moderate run allowed =
    let rules : apply_rules a r p.rules ≡ ok perm = ground arith in
    let (current, own) = apply_rules-current a r p.rules perm rules in
    record {
      known_actor = known;
      authority = authority;
      verified = ground arith;
      dependencies = ground arith;
      receipt = ground arith;
      moderated = ground arith;
      granted = apply_rules-Granted a r p.rules perm rules allowed;
      current = current;
      own = own;
    }

-- When a policy is in force and `Evaluate` allows an operation on content, then the actor and the
-- authority are valid, the content is verified, its dependencies are admitted, it has a receipt, a
-- manual admission is by a moderator of the policy who is not revoked, and the first rule for the
-- operation permits the actor.
pub evaluate_content :
    (a : Authority) (p : ContributionPolicy) (r : Request) (perm : Permission)
    → a.policy ≡ some p
    → content_operation r.operation ≡ true
    → evaluate a r ≡ ok perm
    → perm.allowed ≡ true
    → Admitted a p r perm
unfolding evaluate evaluate_under
evaluate_content a p r perm in_force content run allowed =
    let other =
      λ (o : String) (out : content_operation o ≡ false). content_apart r.operation o out content in
    let prepare = other "prepare" (unfold content_operation mem in refl) in
    let transport = other "transport" (unfold content_operation mem in refl) in
    let moderate = other "moderate" (unfold content_operation mem in refl) in
    let review = other "native.review" (unfold content_operation mem in refl) in
    let execute = other "native.execute" (unfold content_operation mem in refl) in
    let accept = other "native.accept" (unfold content_operation mem in refl) in
    let merge = other "native.merge" (unfold content_operation mem in refl) in
    let known : valid_actor r.actor ≡ true = ground arith in
    let under : (validate_authority a p >>= λ u. evaluate_valid a p r) ≡ ok perm = ground arith in
    let (u, authority, valid) =
      >>=-eq-ok (validate_authority a p) (λ u. evaluate_valid a p r) under in
    valid_content a p r perm known authority (ground arith) moderate valid allowed

-- Where a policy is in force, only a moderator of it who is not revoked is allowed to moderate.
pub evaluate_moderate :
    (a : Authority) (p : ContributionPolicy) (r : Request) (perm : Permission)
    → a.policy ≡ some p
    → r.operation ≡ "moderate"
    → evaluate a r ≡ ok perm
    → perm.allowed ≡ true
    → (mem r.actor p.moderators ≡ true) × (mem r.actor p.revoked_moderators ≡ false)
unfolding evaluate evaluate_under evaluate_valid
evaluate_moderate a p r perm in_force op run allowed =
    let prepare : (r.operation == "prepare") ≡ false = rw op refl in
    let transport : (r.operation == "transport") ≡ false = rw op refl in
    let moderate : (r.operation == "moderate") ≡ true = rw op refl in
    let native : native_operation r.operation ≡ false = rw op refl in (ground arith, ground arith)
