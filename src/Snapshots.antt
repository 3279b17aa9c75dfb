-- ===== src/Snapshots.antt =====
-- apps/backend/app/intelligence/snapshot_store.py: what the store checks before it writes and before it seals.
pub mod Graph
pub mod Evidence
pub mod Begin
pub mod Guard
pub mod Derivations
pub mod Nodes
