-- ===== src/Contribution.antt =====
-- internal/contribution: what a project admits. `Checks` has the shapes of identifiers, `Quota` costs
-- and budgets, `Rules` the project policy and `Evaluate`, `Ledger` the accounting of intake, `Records`
-- the signed records, `Graph` what they amount to.
pub mod Checks
pub mod Quota
pub mod Rules
pub mod Ledger
pub mod Records
pub mod Graph
