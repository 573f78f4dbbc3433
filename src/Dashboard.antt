-- ===== src/Dashboard.antt =====
-- backend/internal/dashboard: the routes of the dashboard.
pub mod Stream
pub mod Routes
pub mod Socket
pub mod Logs
