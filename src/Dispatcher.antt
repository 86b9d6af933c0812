-- ===== src/Dispatcher.antt =====
-- app/services/event_dispatcher_service.py: the notifications, from the table `events` to Telegram.
pub mod Table
pub mod Send
pub mod Cycle
pub mod Claims
pub mod Ends
pub mod Failures
pub mod Groups
pub mod Delivery
pub mod Attempts
