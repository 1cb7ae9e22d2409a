-- ===== src/Calculator.antt =====
-- Layer 2, src/voiceobs/core/calculator.py: spans joined to audio on one clock.
pub mod Read
pub mod Turns
pub mod Gap
pub mod Build
pub mod Derive
pub mod Report
pub mod Analyze
mod Tests
