-- ===== src/Store/Invariant.antt =====
-- The invariants of the database over any history of requests.
pub mod Acyclic
pub mod Log
pub mod Rows
pub mod Links
pub mod Hierarchy
pub mod Ledger
