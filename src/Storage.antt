-- ===== src/Storage.antt =====
-- backend/internal/storage: the ClickHouse store.
pub mod Stats
pub mod Seed
pub mod Columns
pub mod Tables
pub mod Batch
pub mod Store
pub mod Query
pub mod Outlook
