-- ===== src/Client.antt =====
-- app/nitris/client.py and app/nitris/aspnet.py: how a session of the portal gets the attendance page.
-- The HTTP client, the HTML library and the portal behind them are a parameter (Http.Portal).
pub mod Http
pub mod Options
pub mod Postback
pub mod Resolve
pub mod Attendance
pub mod Orders
pub mod Payload
pub mod Probes
mod Outcomes
pub mod Table
pub mod Hints
