-- ===== src/Contribution/Records.antt =====
-- internal/contribution/record.go: submissions, decisions and receipts.
use hubnot.Prelude.{
  Bool, true, false, not, ◌&&◌, ◌||◌, String, List, [], ◌∷◌, ◌++◌, Option, none, some, ok, err,
  errorf, Checked, refuse, ◌>>◌, ◌==◌, if◌then◌else◌, ltb, length, has,
}
use hubnot.Prelude.Strings.{str_ltb}
use hubnot.Prelude.Maps.{present}
use hubnot.Policy.Texts.{concat}
use hubnot.Contribution.Checks.{max_links, valid_id, valid_actor, valid_ids, bounded_text}
use hubnot.Contribution.Quota.{Cost, validate_cost}
use hubnot.Contribution.Rules.{AuthorityRef, validate_ref, content_operation}

pub record Target : Type 0 where
  pub kind : String
  pub id : String

pub record Reference : Type 0 where
  pub kind : String
  pub id : String

pub record Content : Type 0 where
  pub root_id : String
  pub revision : String
  pub author : String
  pub parents : List String
  pub references : List Reference

pub record Submission : Type 0 where
  pub operation : String
  pub content : Content

pub record Decision : Type 0 where
  pub action : String
  pub target : Target
  pub authority : AuthorityRef
  pub parents : List String

pub record Receipt : Type 0 where
  pub submission : String
  pub authority : AuthorityRef
  pub artifact : String
  pub accounting : String
  pub window : String
  pub cost : Cost
  pub automatic : Bool
  pub evaluated : List String

-- `Record` of the source; its `Submission`, `Decision` and `Receipt` are pointers that may be nil.
pub record Entry : Type 0 where
  pub version : String
  pub kind : String
  pub project : String
  pub actor : String
  pub public_key : String
  pub intent : String
  pub submitted : Option Submission
  pub decided : Option Decision
  pub received : Option Receipt

-- `Verified`: `entry` is what `Record()` decodes from the payload.
pub record Verified : Type 0 where
  pub id : String
  pub payload : String
  pub entry : Entry

unfoldable pub reference_ids : List Reference → List String
reference_ids [] = []
reference_ids (r ∷ refs) = r.id ∷ reference_ids refs

-- `string(r.Kind)+":"+r.ID`
abbrev pub reference_key : Reference → String
reference_key r = concat r.kind (concat ":" r.id)

-- The loop of `validReferences`, with the key before.
unfoldable pub ascending_references : String → List Reference → Bool
ascending_references prior [] = true
ascending_references prior (r ∷ refs) =
    if (not (r.kind == "root") && not (r.kind == "revision"))
      || not (valid_id r.id)
      || not (str_ltb prior (reference_key r))
    then false
    else ascending_references (reference_key r) refs

unfoldable pub valid_references : List Reference → Bool
valid_references refs = if ltb max_links (length refs) then false else ascending_references "" refs

-- What a content depends on: `append(append([]string{}, c.Parents...), referenceIDs(c.References)...)`.
unfoldable pub dependency_ids : Content → List String
dependency_ids c = c.parents ++ reference_ids c.references

unfoldable pub validate_content : Content → Checked
validate_content c = do
  refuse
      (not (valid_id c.root_id)
        || not (valid_id c.revision)
        || not (valid_actor c.author)
        || not (valid_ids c.parents max_links)
        || not (valid_references c.references))
      (errorf "invalid exact content binding" [])
  refuse (has (λ id. id == c.revision) (dependency_ids c)) (errorf "self-referencing content" [])

unfoldable pub validate_target : Target → Checked
validate_target t =
    if (t.kind == "submission" || t.kind == "revision") && valid_id t.id
    then ok tt
    else if t.kind == "actor" && valid_actor t.id
    then ok tt
    else err (errorf "invalid typed target" [])

-- The kind of target that an action needs.
abbrev pub action_matches : String → String → Bool
action_matches action kind =
    if action == "admit" || action == "reject"
    then kind == "submission"
    else if action == "hide" || action == "restore"
    then kind == "revision"
    else if action == "block" || action == "unblock"
    then kind == "actor"
    else false

unfoldable pub validate_decision : Decision → Checked
validate_decision d = do
  validate_target d.target
  validate_ref d.authority
  refuse (not (valid_ids d.parents max_links)) (errorf "invalid decision parents" [])
  refuse (not (action_matches d.action d.target.kind))
      (errorf "action does not match typed target" [])

abbrev validate_receipt : Receipt → Checked
validate_receipt x = do
  refuse
      (not (valid_id x.submission)
        || not (valid_id x.artifact)
        || not (valid_id x.accounting)
        || not (bounded_text x.window 128)
        || not (valid_ids x.evaluated max_links))
      (errorf "invalid intake receipt binding" [])
  validate_ref x.authority
  validate_cost x.cost

-- The switch of `(r Record) Validate` on the kind.
unfoldable pub validate_kind : Entry → Checked
validate_kind r =
    if r.kind == "submission"
    then elim r.submitted [
      | none ↦ err (errorf "invalid submission shape" [])
      | some s ↦
          refuse (present r.decided || present r.received || not (content_operation s.operation))
            (errorf "invalid submission shape" [])
          >> validate_content s.content
    ]
    else if r.kind == "decision"
    then elim r.decided [
      | none ↦ err (errorf "invalid decision shape" [])
      | some d ↦
          refuse (present r.submitted || present r.received) (errorf "invalid decision shape" [])
          >> validate_decision d
    ]
    else if r.kind == "receipt"
    then elim r.received [
      | none ↦ err (errorf "invalid receipt shape" [])
      | some x ↦
          refuse (present r.submitted || present r.decided) (errorf "invalid receipt shape" [])
          >> validate_receipt x
    ]
    else err (errorf "unsupported contribution kind" [])

-- `names_key` says that a text is a public key in the canonical encoding, and an actor its hash.
unfoldable pub validate_entry : (String → String → Bool) → Entry → Checked
validate_entry names_key r = do
  refuse
      (not (r.version == "hn.contribution/1")
        || not (valid_id r.project)
        || not (valid_actor r.actor)
        || not (bounded_text r.intent 128))
      (errorf "invalid contribution envelope" [])
  refuse (not (names_key r.public_key r.actor)) (errorf "actor does not match native public key" [])
  validate_kind r
