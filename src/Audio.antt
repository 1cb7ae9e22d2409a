-- ===== src/Audio.antt =====
-- The audio side of the analysis (src/voiceobs/core/audio).
pub mod Intervals
pub mod Metrics
pub mod Vad
mod Tests
