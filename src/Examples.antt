-- ===== src/Examples.antt =====
-- Runs of the model on a small plan.
pub mod Samples
mod History
mod Graph
mod Writes
mod Reading
mod Rows
mod Daemon
mod Bridge
mod Opening
mod Bytes
