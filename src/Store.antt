-- ===== src/Store.antt =====
-- flowcore/src/store.rs: the synchronous store. Enumerations and rows (`Values`, `Rows`), the shared
-- reads and helpers (`Reads`, `Progress`, `Payload`, `Helpers`), and the operations.
pub mod Values
pub mod Rows
pub mod Reads
pub mod Progress
pub mod Payload
pub mod Helpers
pub mod Nodes
pub mod Delete
pub mod Edges
pub mod Reports
pub mod Moves
pub mod Undo
pub mod Projects
pub mod Queries
pub mod Keeps
pub mod Dispatch
pub mod Responses
pub mod Codec
pub mod Wire
pub mod Invariant
pub mod History
pub mod Told
pub mod Atomic
pub mod Replay
pub mod Retry
