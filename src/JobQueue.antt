-- ===== src/JobQueue.antt =====
-- app/nitris/job_queue.py: the priority job queue with its two lanes, single-flight deduplication
-- and retries. One function for each stretch of code that runs without an await in between.
pub mod State
pub mod Enqueue
pub mod Worker
pub mod Lanes
pub mod Bounds
pub mod SingleFlight
pub mod Order
pub mod Retries
pub mod Reach
