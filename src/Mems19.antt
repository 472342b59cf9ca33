-- ===== src/Mems19.antt =====
-- internal/ecu/mems19/mems19.go: the wake-up of MEMS 1.9. What follows it is the loop of Mems1x.
pub mod SlowInit
pub mod Handshake
pub mod Connect
