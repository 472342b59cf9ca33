-- ===== src/Examples.antt =====
-- Concrete runs: what the theorems say of small inputs.
mod Agents
mod Bles
mod Companions
mod Ecus
mod Fakes
mod Mems19s
mod Mems2js
mod Mems3s
mod Rc5s
mod Serials
mod Webs
