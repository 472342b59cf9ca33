-- ===== src/Rc5.antt =====
-- internal/ecu/rc5/rc5.go: the handler of the RC5 airbag ECU. `Commands` has what it sends, `Faults` the
-- fault reply, `Connect` the wake-up, `Loop` the read loop.
pub mod Commands
pub mod Faults
pub mod Loop
pub mod Connect
