-- ===== src/Companion.antt =====
-- The stores behind the phone's Bluetooth characteristics: internal/nowplaying, internal/navigation,
-- internal/notification and internal/headunit, with the parts that they have in common.
pub mod Fanout
pub mod Chunks
pub mod NowPlaying
pub mod Navigation
pub mod Notification
pub mod Headunit
