-- ===== src/Withdrawal.antt =====
-- run_withdrawal.go: the relation of a withdrawal to its run request.
use hubnot.Prelude.{
  ◌≡◌, ap, arith, String, Bool, false, not, ◌&&◌, ◌||◌, List, [], ◌∷◌, Option, none, some, ◌==◌,
  eq_iff, leb, ◌<◌, Checked, ok, err, errorf, str, refuse, ◌>>◌, has, if◌then◌else◌, Option-cases,
  inl, inr, Bool-cases,
}
use hubnot.Prelude.Maps.{Dict, lookup, values}
use hubnot.Event.{StoredEvent}
use hubnot.Event.Ids.{short_id}

-- Another withdrawal of the same request.
unfoldable pub competes : StoredEvent → StoredEvent → Bool
competes withdrawal other =
    other.event.kind == "run.withdraw"
    && other.event.subject == withdrawal.event.subject
    && not (other.id == withdrawal.id)

abbrev unavailable : StoredEvent → Checked
unavailable withdrawal = err (
    errorf "run withdrawal %s requires an available run request %s"
      (str (short_id withdrawal.id) ∷ str withdrawal.event.subject ∷ []))

-- What is asked of the request that the withdrawal names.
unfoldable pub validate_against : StoredEvent → StoredEvent → Dict StoredEvent → Checked
unfolding competes
validate_against withdrawal request by_id = do
  refuse
      (not (request.event.actor == withdrawal.event.actor)
        || not (request.event.public_key == withdrawal.event.public_key))
      (errorf "run withdrawal must be signed by the original requester actor and public key" [])
  refuse (leb withdrawal.event.sequence request.event.sequence)
      (errorf "run withdrawal must follow its original request sequence" [])
  refuse (has (competes withdrawal) (values by_id)) (
      errorf
        "run request %s already has a withdrawal; duplicate or conflicting withdrawal facts are invalid"
        (str (short_id withdrawal.event.subject) ∷ []))

-- `validateRunWithdrawalRelationship`
unfoldable pub validate_run_withdrawal : StoredEvent → Dict StoredEvent → Checked
unfolding validate_against
validate_run_withdrawal withdrawal by_id = elim (lookup withdrawal.event.subject by_id) [
  | none ↦ unavailable withdrawal
  | some request ↦
      if not (request.event.kind == "run.request")
      then unavailable withdrawal
      else validate_against withdrawal request by_id
]

-- `findRunWithdrawal`
unfoldable pub find_run_withdrawal : List StoredEvent → String → Option StoredEvent
find_run_withdrawal [] request_id = none
find_run_withdrawal (s ∷ events) request_id =
    if s.event.kind == "run.withdraw" && s.event.subject == request_id
    then some s
    else find_run_withdrawal events request_id

-- A withdrawal of the requester, after the request, and no other.
pub record Withdraws (withdrawal : StoredEvent) (by_id : Dict StoredEvent) : Type 0 where
  pub request : StoredEvent
  pub available : lookup withdrawal.event.subject by_id ≡ some request
  pub is_request : request.event.kind ≡ "run.request"
  pub same_actor : request.event.actor ≡ withdrawal.event.actor
  pub same_key : request.event.public_key ≡ withdrawal.event.public_key
  pub later : request.event.sequence < withdrawal.event.sequence
  pub unique :
      (id : String) (other : StoredEvent)
      → lookup id by_id ≡ some other
      → other.event.kind ≡ "run.withdraw"
      → other.event.subject ≡ withdrawal.event.subject
      → other.id ≡ withdrawal.id

no_competitor :
    (withdrawal : StoredEvent) (by_id : Dict StoredEvent) (id : String) (other : StoredEvent)
    → has (competes withdrawal) (values by_id) ≡ false
    → lookup id by_id ≡ some other
    → competes withdrawal other ≡ false
unfolding has lookup
no_competitor withdrawal [] id other h found = absurd ground arith
no_competitor withdrawal ((k, v) ∷ by_id) id other h found = elim (Bool-cases (k == id)) [
  | inl same ↦ elim (Bool-cases (competes withdrawal other)) [
    | inl t ↦
        let e : v ≡ other = ground (arith, found) in
        absurd ground (arith, ap (competes withdrawal) e)
    | inr f ↦ f
  ]
  | inr apart ↦ no_competitor withdrawal by_id id other (ground arith) (ground arith)
]

-- A withdrawal that passes the check names an available run request of the same actor and the same key,
-- has a higher sequence number, and is the only withdrawal of this request that is known.
pub validate_run_withdrawal-Withdraws :
    (withdrawal : StoredEvent) (by_id : Dict StoredEvent)
    → validate_run_withdrawal withdrawal by_id ≡ ok tt
    → Withdraws withdrawal by_id
unfolding validate_run_withdrawal validate_against
validate_run_withdrawal-Withdraws withdrawal by_id run =
    elim (Option-cases (lookup withdrawal.event.subject by_id)) [
      | inl n ↦ absurd ground (arith, n, run)
      | inr (request, found) ↦
          let alone : has (competes withdrawal) (values by_id) ≡ false =
            ground (arith, found, run) in
          record {
            request = request;
            available = found;
            is_request = ground (arith, found, run, eq_iff request.event.kind "run.request");
            same_actor =
                ground (arith, found, run, eq_iff request.event.actor withdrawal.event.actor);
            same_key =
                ground
                  (arith, found, run, eq_iff request.event.public_key withdrawal.event.public_key);
            later = ground (arith, found, run);
            unique = λ id other there kind subject.
                unfold competes in
                ground (
                  arith,
                  no_competitor withdrawal by_id id other alone there,
                  eq_iff other.event.kind "run.withdraw",
                  eq_iff other.event.subject withdrawal.event.subject,
                  eq_iff other.id withdrawal.id,
                );
          }
    ]
