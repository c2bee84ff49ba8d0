-- ===== src/Memory.antt =====
-- db.py and facts.py: the canonical memories, their history, and the temporal facts that they project.
-- `sha256` is the hex digest of a text; uuids and the clock are arguments.
pub mod Text
pub mod Tables
pub mod Operations
pub mod Facts
pub mod Linked
pub mod Deletion
pub mod Elsewhere
pub mod Stays
pub mod Final
pub mod Versions
pub mod Lifecycle
pub mod Runs
pub mod Supersession
pub mod Listing
mod Tests
