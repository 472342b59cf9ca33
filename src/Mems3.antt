-- ===== src/Mems3.antt =====
-- internal/ecu/mems3/mems3.go: the handler of the MEMS 3 ECU. `Commands` has the handler's state and
-- what it sends, `Port` its connection, `Faults` the fault list, `Frames` the responses, `Loop` the read loop.
pub mod Commands
pub mod Port
pub mod Faults
pub mod Frames
pub mod Loop
