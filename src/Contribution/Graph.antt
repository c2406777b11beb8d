-- ===== src/Contribution/Graph.antt =====
-- internal/contribution/model.go: what the records of a project amount to.
pub mod Facts
pub mod Grounds
pub mod Nodes
pub mod Enough
pub mod Signers
pub mod Decisions
pub mod Receipts
pub mod Outcomes
pub mod Admission
pub mod Visibility
pub mod View
pub mod Intake
mod Gathered
pub mod Reduced
pub mod Blocked
pub mod Answers
pub mod Ends
