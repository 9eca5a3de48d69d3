-- ===== src/Workers.antt =====
-- apps/workers: what the workers run for an engagement.
mod Tests
pub mod Chunk
pub mod CaptureSession
