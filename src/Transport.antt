-- ===== src/Transport.antt =====
-- backend/internal/transport/nats.go: the broker between the services.
pub mod Message
pub mod Consume
pub mod LiveTail
pub mod Retry
pub mod Presence
