-- ===== src/QPaper.antt =====
-- app/services/qpaper_service.py: the shared cache of question papers, as the states of one row.
pub mod Row
pub mod Acquire
pub mod Deliver
pub mod Lifecycle
pub mod Contention
pub mod Sending
