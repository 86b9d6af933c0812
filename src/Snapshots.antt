-- ===== src/Snapshots.antt =====
-- app/services/snapshot_service.py and app/services/event_service.py: the snapshots of the attendance
-- and the events that their differences make. A transaction is one function on the state. The hash
-- (SHA-256 of the sorted JSON) is a parameter, a function of the whole result.
pub mod Numbers
pub mod Events
pub mod Store
pub mod Detection
pub mod Parsing
pub mod History
