-- ===== src/NowNext.antt =====
-- app/services/now_next_service.py: which class of a timetable is on, and which is the next.
pub mod Slots
pub mod Resolve
pub mod Order
pub mod Earliest
pub mod Last
