-- ===== src/Worker.antt =====
-- backend/internal/worker: the worker that moves logs from the stream to the store.
pub mod Split
pub mod Delay
pub mod Decompress
pub mod Transform
pub mod Process
pub mod Callback
pub mod Publish
