-- ===== src/Frameworks.antt =====
-- src/voiceobs/frameworks/: a producer's OpenTelemetry export becomes a `Trace`.
pub mod Otlp
pub mod Generic
pub mod Livekit
pub mod Pipecat
pub mod Registry
mod Tests
