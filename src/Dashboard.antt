-- ===== src/Dashboard.antt =====
-- apps/web/src/lib: what the dashboard works out apart from React.
pub mod RelativeTime
pub mod ElapsedClock
pub mod ActivityFilter
