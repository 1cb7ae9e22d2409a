-- ===== src/Process.antt =====
-- src/voiceobs/worker/process.py: from a call's fragments to its rows. The tables are lists of rows.
pub mod Assemble
pub mod Rows
pub mod Rollup
pub mod Persist
pub mod Listen
pub mod Contained
pub mod Run
mod Tests
