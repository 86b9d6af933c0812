-- ===== src/ClassEnd.antt =====
-- app/services/class_end_sync.py: a sync of the attendance after the last class of a day.
pub mod Sync
pub mod Once
pub mod Batch
