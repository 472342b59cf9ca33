-- ===== src/Ecu.antt =====
-- internal/ecu: the state that the ECU handlers share with the web server, its debug log, the
-- registry of handlers and the security-access key.
pub mod Reading
pub mod Log
pub mod State
pub mod Cable
pub mod Key
pub mod Fields
