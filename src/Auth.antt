-- ===== src/Auth.antt =====
-- Sessions (src/voiceobs/auth).
pub mod Refresh
pub mod Tokens
pub mod Access
mod Tests
