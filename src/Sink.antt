-- ===== src/Sink.antt =====
-- internal/sink: where the downloaded chunks go.
pub mod File
pub mod Stream
mod Tests
