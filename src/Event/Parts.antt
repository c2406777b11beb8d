-- ===== src/Event/Parts.antt =====
-- The payloads that an event may carry: the issue state of issue_model.go and the audit fact of
-- audit_protocol.go.
use hubnot.Prelude.{String, List, Option, ℤ}
use hubnot.Prelude.Maps.{Dict}

pub record IssueCriterion : Type 0 where
  pub id : String
  pub text : String

pub record IssueRelation : Type 0 where
  pub kind : String
  pub target : String

pub record IssueState : Type 0 where
  pub title : String
  pub body : String
  pub status : String
  pub criteria : List IssueCriterion
  pub labels : List String
  pub assignees : List String
  pub relations : List IssueRelation
  pub metadata : Dict String

pub record AuditSource : Type 0 where
  pub kind : String
  pub commit : String
  pub path : String
  pub revision : String

pub record AuditFinding : Type 0 where
  pub key : String
  pub title : String
  pub body : String
  pub path : String
  pub line : ℤ

pub record AuditFact : Type 0 where
  pub scope : String
  pub rule : String
  pub policy_commit : String
  pub policy_digest : String
  pub parents : List String
  pub source : Option AuditSource
  pub definition : String
  pub definition_digest : String
  pub reason : String
  pub authorization : String
  pub code_commit : String
  pub intent : String
  pub request : String
  pub outcome : String
  pub findings : List AuditFinding
  pub log : String
  pub backend : String
  pub platform : String
  pub runner : String
  pub exit_code : ℤ
  pub duration_ms : ℤ
