-- ===== src/Gateway.antt =====
-- app/nitris/gateway.py: the single chokepoint for NITRIS traffic. Clock readings and durations are
-- whole milliseconds, and the monotonic clock never runs backwards, so `now - t` is exact. The
-- asyncio condition is modelled by its locked sections: each function is one section, and a caller
-- that waits re-enters `admit` when it wakes.
pub mod State
pub mod Adaptive
pub mod Admission
pub mod Pacing
pub mod Login
pub mod Breaker
pub mod Probe
pub mod Slots
pub mod Turns
pub mod Dispatched
