-- ===== src/Tests.antt =====
-- Runs of the definitions on concrete inputs.
mod Lineage
mod Contribution
mod Policy
mod Facts
mod Graph
mod Sample
