-- ===== src/Lib.antt =====
-- hubnot keeps the collaboration of a Git repository in signed, append-only events: proposals and
-- their revisions, reviews, runs and their results, decisions and merges. This library models the
-- parts that decide: which proposals belong together, what a project admits, what the repository's
-- policy demands of a proposal, and which signed decisions and merges count.
--
-- Parts, their files and the code (paths from the repository's root):
-- - Prelude: results with errors, texts, maps as association lists, sorting, 64-bit arithmetic.
-- - Event (event.go): the event and the stored event, the shapes of IDs, the order of events.
-- - Lineage (lineage.go): `buildLineageIndex` is `build_lineage_index` of Lineage/Index, the queries
--   `root`, `ancestors`, `descendants`, `members` and `state` are those of Lineage/Query. The other
--   modules prove: Acyclic and Root about the searches, Build about the index, Ancestors, Descendants,
--   Members, State and Summary about the answers.
-- - Contribution (internal/contribution/policy.go, record.go): Checks has the shapes of identifiers,
--   Quota the budgets, Rules the policy and `Evaluate`, Ledger `Reserve`, `Rollover` and `validate`,
--   Records the submissions, decisions and receipts with their checks.
-- - Contribution/Graph (internal/contribution/model.go): `Reduce` is `reduce` of View, in the stages of
--   the source. Facts has `getFact`, Nodes and Signers the graph and who may sign, Decisions
--   `decisionValid`, Receipts the completed intake, Outcomes what the decisions choose, Admission
--   `admit`, Visibility the heads and the fixed point, Intake `IntakeEvidence`. The other modules
--   prove: Grounds and Gathered about the facts, Reduced, Answers and Ends about the view, Cited,
--   Cleared and Granted of Intake about the evidence for an intake, Blocked and Outcomes.Barred about
--   the blocked actors, Enough about the fuel of the searches.
-- - Policy (policy.go, protected_checks.go, audit_authority.go, and parts of proposal.go, ci.go):
--   Document and Check have the policy and `validatePolicy`, Latest `currentReviews` and
--   `currentRunResults`, Protected the protected paths, Admit `validateDecisionEvent` and
--   `validateMergeEvent`, Evaluate `evaluateProposal`. Agree relates the evaluation to the checks.
-- - Store (store.go): `validateActorChains`. Withdrawal (run_withdrawal.go): the check of a withdrawal.
-- - Tests: runs of the definitions on concrete inputs.
--
-- How they interact: an evaluation builds the lineage index of the events, loads the policy of the
-- proposal's base, picks the latest review, result and decision of each actor, and lists evidence; a
-- decision signs that evidence, a merge signs the decisions, and the checks of Admit look at both again.
--
-- State and errors: Go's `(value, error)` is `Result`; a message keeps its format and arguments. A map
-- is an association list in the order in which `range` visits it, so the error that is reported first
-- may differ where Go leaves the order open. A set is a list. A value is never shared, so the copies
-- of `cloneLedger` are the values themselves. `int` and `int64` are signed numbers; the sums on
-- `int64` wrap.
--
-- The variables that the closures of `Reduce` share are the record `Reduction`, the maps of `getFact`
-- the record `FactTable`, passed from call to call. `delete` on a set of heads is a filter.
--
-- Fuel: `getFact`, `decisionValid` and `admit` run on two more than the limit of depth, beyond which
-- they return without a call; the fixed point on the length of the queue and the number of its keys,
-- since each key enters the queue once. The loops of lineage.go run on fuel, one more than the number
-- of links, two more in the queries. A loop that does not meet an ID twice has no more rounds, and one
-- that does reports an error.
--
-- Outside the model: what Git answers is the record `Repository` of Policy/Admit (`loadPolicy`,
-- `loadPipeline`, `proposalHead`, `changedPathsAt`), and the view of the contribution projection is an
-- argument of `evaluate_proposal`. The native source and the authority source of `Reduce` are fields
-- of the record `Scope`; what a record decodes to is a field of it. Signatures, JSON, files, network and
-- the commands are left out.
pub mod Prelude
pub mod Event
pub mod Lineage
pub mod Contribution
pub mod Policy
pub mod Store
pub mod Withdrawal
pub mod Tests
