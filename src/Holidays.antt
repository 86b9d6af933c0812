-- ===== src/Holidays.antt =====
-- app/services/holidays_service.py: the holiday calendar of the institute. The parser of the portal's
-- HTML and the portal are parameters. Times are in seconds.
pub mod Pages
pub mod Transport
pub mod Months
pub mod Labels
pub mod Cache
pub mod Fetch
pub mod Walk
pub mod Navigation
pub mod Restart
pub mod Stray
