-- ===== src/Event.antt =====
-- event.go: the signed event and the stored event. Every fact of the protocol (a proposal, a review,
-- a run, a decision, a merge, an issue) is one `Event`, told apart by its `kind`.
mod Parts
pub mod Ids
pub mod Order
pub use Parts.*
use hubnot.Prelude.{ℕ, String, Bool, ◌||◌, List, [], Option, none, ◌==◌, ℤ, pos}
use hubnot.Prelude.Maps.{Dict}

pub record Event : Type 0 where
  pub protocol : String
  pub kind : String
  pub actor : String
  pub actor_name : String
  pub public_key : String
  pub sequence : ℕ
  pub timestamp : String
  pub previous : String
  pub subject : String
  pub relationship : String
  pub target_actor : String
  pub target_key : String
  pub title : String
  pub body : String
  pub base : String
  pub head : String
  pub verdict : String
  pub pipeline : String
  pub definition : String
  pub commit : String
  pub outcome : String
  pub exit_code : ℤ
  pub duration_ms : ℤ
  pub log : String
  pub backend : String
  pub platform : String
  pub runner : String
  pub policy : String
  pub evidence : List String
  pub issue : Option IssueState
  pub parents : List String
  pub operation : String
  pub request : String
  pub intent : String
  pub audit : Option AuditFact

pub record StoredEvent : Type 0 where
  pub id : String
  pub commit : String
  pub event : Event
  pub payload : List ℕ
  pub signature : List ℕ
  pub attachments : Dict (List ℕ)

-- The zero value `Event{}`.
abbrev pub zero_event : Event
zero_event = record {
  protocol = "";
  kind = "";
  actor = "";
  actor_name = "";
  public_key = "";
  sequence = 0;
  timestamp = "";
  previous = "";
  subject = "";
  relationship = "";
  target_actor = "";
  target_key = "";
  title = "";
  body = "";
  base = "";
  head = "";
  verdict = "";
  pipeline = "";
  definition = "";
  commit = "";
  outcome = "";
  exit_code = pos 0;
  duration_ms = pos 0;
  log = "";
  backend = "";
  platform = "";
  runner = "";
  policy = "";
  evidence = [];
  issue = none;
  parents = [];
  operation = "";
  request = "";
  intent = "";
  audit = none;
}

-- A stored event of which only the ID and the signed event matter.
abbrev pub stored : String → Event → StoredEvent
stored id e = record {
  id = id;
  commit = "";
  event = e;
  payload = [];
  signature = [];
  attachments = [];
}

unfoldable pub is_proposal_kind : String → Bool
is_proposal_kind kind = kind == "proposal.open" || kind == "proposal.revise"
