-- ===== src/Companion/Headunit.antt =====
-- internal/headunit: the relay between the phone and the dashboard. `Protocol` is protocol.go,
-- `Relay` is headunit.go.
pub mod Protocol
pub mod Relay
