-- ===== src/Agent.antt =====
-- cmd/rover-mems/main.go: the connection attempts (Connect) and the loop that repeats them (EventLoop).
pub mod Connect
pub mod EventLoop
