-- ===== src/Web.antt =====
-- internal/web/server.go.
pub mod Api
pub mod Origin
pub mod Streams
pub mod Polls
pub mod Visits
