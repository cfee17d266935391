-- ===== src/Timer.antt =====
-- skynet-1.2.0/skynet-src/skynet_timer.c: the timing wheel.
pub mod Wheel
pub mod Place
pub mod Tick
pub mod Nodes
pub mod Shift
pub mod Update
pub mod Elapse
mod Examples
