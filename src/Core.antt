-- ===== src/Core.antt =====
-- backend/internal/core: the data that the services exchange.
pub mod Encoding
pub mod Time
pub mod Msgp
pub mod Logs
pub mod Metrics
pub mod Stats
