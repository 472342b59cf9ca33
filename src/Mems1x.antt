-- ===== src/Mems1x.antt =====
-- internal/ecu/mems1x: the handler of the MEMS 1.2, 1.3 and 1.6 ECUs. `Commands` has the handler's
-- state and what it sends, `Port` its connection, `Frames` the two data frames, `Loop` the read loop.
pub mod Commands
pub mod Port
pub mod Frames
pub mod Loop
