-- ===== src/Mems2j.antt =====
-- internal/ecu/mems2j: the handler of the MEMS 2J ECU. `Commands` has the handler's state and what it
-- sends, `Port` its connection, `Faults` and `Parse` what it reads from a response, `Loop` the read loop.
pub mod Commands
pub mod Port
pub mod Faults
pub mod Parse
pub mod Loop
