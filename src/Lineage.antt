-- ===== src/Lineage.antt =====
-- lineage.go: the revision lineage of proposals. `Index` has the index and how it is built, `Query`
-- the questions that are asked of it; the other modules prove.
mod Index
mod Query
pub mod Chain
pub mod Root
pub mod Acyclic
pub mod Build
pub mod Descendants
pub mod Ancestors
pub mod Members
pub mod State
pub mod Summary
unfoldable pub use Index.*
unfoldable pub use Query.*
