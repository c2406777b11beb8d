-- ===== src/Policy/Agree.antt =====
-- policy.go and protected_checks.go: evaluations against the checks of signed events.
mod Reviews
mod Runners
mod Cited
mod Protection
pub mod Merges
pub mod Decides
pub mod Guarded
