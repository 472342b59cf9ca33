-- ===== src/Serial.antt =====
-- internal/serial: `Port` is the interface of port.go with `Open`, `Capture` the tracing port of
-- capture.go, `Hex` its `hexBytes`, `Reader` the goroutine of readwrite.go with its channel.
pub mod Hex
pub mod Port
pub mod Capture
pub mod Reader
