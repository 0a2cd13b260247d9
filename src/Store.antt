-- ===== src/Store.antt =====
-- The rows of Postgres and the queries on them: packages/db/src.
pub mod Rows
pub mod Deliveries
pub mod Endpoints
pub mod Broadcasts
pub mod Channels
pub mod Tokens
pub mod Views
pub mod Directory
