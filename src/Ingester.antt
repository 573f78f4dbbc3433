-- ===== src/Ingester.antt =====
-- backend/internal/ingester: log payloads come in over HTTP or gRPC and go to the stream.
pub mod Http
pub mod Grpc
pub mod Supported
