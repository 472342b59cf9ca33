-- ===== src/Fake.antt =====
-- internal/ecu/fake/fake.go: the simulated ECU. `Signals` has what it shows, `Loop` how it runs.
pub mod Signals
pub mod Loop
pub mod Bounds
