-- ===== src/Tests/Sample.antt =====
-- internal/contribution/model.go on a small project: an issue, and a reply to it that is hidden.
use hubnot.Prelude.{
  true, false, List, [], ◌∷◌, String, none, some, Result, ok, err, errorf, pos, ◌==◌, if◌then◌else◌,
}
use hubnot.Policy.Texts.{concat}
use hubnot.Contribution.Quota.{Cost, Usage}
use hubnot.Contribution.Rules.{Rule, ContributionPolicy, AuthorityRef, Authority}
use hubnot.Contribution.Records.{Content, Submission, Entry, Verified}
use hubnot.Contribution.Graph.Facts.{NativeFact}
use hubnot.Contribution.Graph.Nodes.{Scope}
use hubnot.Contribution.Graph.View.{View}

abbrev pub digest : String → String
digest last = concat "sha256:000000000000000000000000000000000000000000000000000000000000000" last

abbrev pub alice : String
alice = "000000000000000000000000000000000000000000000000000000000000000a"

abbrev pub bob : String
bob = "000000000000000000000000000000000000000000000000000000000000000b"

abbrev pub project : String
project = digest "1"

abbrev pub authority_ref : AuthorityRef
authority_ref = record { commit = "00000000000000000000000000000000000000ff"; digest = digest "2" }

abbrev pub budget : Usage
budget = record { bytes = pos 1000000; objects = pos 100; events = pos 100; requests = pos 10 }

abbrev pub automatic_rule : String → Rule
automatic_rule operation = record {
  operation = operation;
  automatic = true;
  actors = [];
  allow_maintainers = false;
}

abbrev pub policy : ContributionPolicy
policy = record {
  project = project;
  moderators = alice ∷ [];
  revoked_moderators = [];
  rules = automatic_rule "issue.create" ∷ automatic_rule "issue.reply" ∷ [];
  baseline = [];
  limits = record {
    wire_bytes = pos 1000;
    decoded_bytes = pos 1000;
    objects = pos 10;
    events = pos 10;
    depth = pos 5;
    milliseconds = pos 1000;
    window = budget;
    retained = budget;
  };
}

abbrev pub authority : Authority
authority = record { ref = authority_ref; policy = some policy; maintainers = alice ∷ [] }

abbrev pub cost : Cost
cost = record {
  wire_bytes = pos 10;
  decoded_bytes = pos 20;
  objects = pos 1;
  events = pos 2;
  depth = pos 3;
  milliseconds = pos 4;
}

-- An issue, and a reply to it.
abbrev pub issue : String
issue = digest "a"

abbrev pub reply : String
reply = digest "b"

abbrev pub issue_content : Content
issue_content = record {
  root_id = issue;
  revision = issue;
  author = bob;
  parents = [];
  references = [];
}

abbrev pub reply_content : Content
reply_content = record {
  root_id = reply;
  revision = reply;
  author = bob;
  parents = [];
  references = record { kind = "root"; id = issue } ∷ [];
}

abbrev pub fact : String → Content → NativeFact
fact operation content = record { actor = bob; operation = operation; content = content }

abbrev pub native : String → Result NativeFact
native id =
    if id == issue
    then ok (fact "issue.create" issue_content)
    else if id == reply
    then ok (fact "issue.reply" reply_content)
    else err (errorf "missing exact native dependency" [])

abbrev pub scope : Scope
scope = record {
  current = authority;
  policy = policy;
  native = native;
  historical = λ ref. ok authority;
  established = λ id ref. ok true;
}

abbrev pub entry : String → String → String → Entry
entry kind actor intent = record {
  version = "hn.contribution/1";
  kind = kind;
  project = project;
  actor = actor;
  public_key = "key";
  intent = intent;
  submitted = none;
  decided = none;
  received = none;
}

abbrev pub submits : String → String → String → Content → Verified
submits id intent operation content = record {
  id = digest id;
  payload = "{}";
  entry = record (entry "submission" bob intent) {
    submitted = some (record { operation = operation; content = content });
  };
}

abbrev pub receives : String → String → String → Verified
receives id intent submission = record {
  id = digest id;
  payload = "{}";
  entry = record (entry "receipt" alice intent) {
    received = some (record {
      submission = digest submission;
      authority = authority_ref;
      artifact = digest "3";
      accounting = digest "4";
      window = "w1";
      cost = cost;
      automatic = true;
      evaluated = [];
    });
  };
}

abbrev pub moderation : String → String → String → String → Verified
moderation id intent action revision = record {
  id = digest id;
  payload = "{}";
  entry = record (entry "decision" alice intent) {
    decided = some (record {
      action = action;
      target = record { kind = "revision"; id = revision };
      authority = authority_ref;
      parents = [];
    });
  };
}

abbrev pub input : List Verified
input =
    submits "5" "i1" "issue.create" issue_content
    ∷ submits "6" "i2" "issue.reply" reply_content
    ∷ receives "7" "r1" "5"
    ∷ receives "8" "r2" "6"
    ∷ moderation "9" "i3" "hide" reply
    ∷ moderation "d" "i4" "restore" issue
    ∷ []

abbrev pub view : View
view = record {
  roots = (issue, issue) ∷ (reply, reply) ∷ [];
  project = project;
  authority = authority_ref;
  blocked = [];
  admitted = issue ∷ reply ∷ [];
  visible = issue ∷ [];
  heads = (issue, issue ∷ []) ∷ (reply, reply ∷ []) ∷ [];
  pending = [];
  conflicts = [];
  revoked = [];
  invalid = [];
  decision_heads =
      (record { kind = "revision"; id = reply }, digest "9" ∷ [])
      ∷ (record { kind = "revision"; id = issue }, digest "d" ∷ [])
      ∷ [];
}

-- Another reply to the issue.
abbrev pub offer : Verified
offer = submits "c" "i5" "issue.reply" (record reply_content { revision = digest "e" })

abbrev pub offered : Submission
offered = record {
  operation = "issue.reply";
  content = record reply_content { revision = digest "e" };
}
