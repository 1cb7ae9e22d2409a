-- ===== src/Model.antt =====
-- The internal types of src/voiceobs/core/model.py. A time is a whole number of ten-thousandths of
-- a second, the grain to which the program rounds, and a latency is in tenths of a millisecond,
-- which is the same grain.
pub mod Value
mod Spans
mod Audio
mod Result
unfoldable pub use Spans.*
pub use Audio.*
pub use Result.*
