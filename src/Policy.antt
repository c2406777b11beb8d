-- ===== src/Policy.antt =====
-- policy.go and protected_checks.go: what a repository's policy demands of a proposal.
-- `Document` has the policy, `Validate` and `Check` its check, `Latest` the current fact of each actor,
-- `Protected` the checks of protected paths, `Admit` the check of signed decisions and merges, and
-- `Evaluate` the evaluation of a proposal, and `Agree` relates the two.
pub mod Document
pub mod Texts
pub mod Validate
pub mod Check
pub mod Latest
pub mod Protected
pub mod Admit
pub mod Evaluate
pub mod Agree
