-- ===== src/Examples.antt =====
-- The theorems at concrete inputs: a gateway, users, jobs, events and schedule rows.
mod Circuit
mod Guards
mod Jobs
mod Events
mod Schedules
mod Papers
mod Limits
mod Sessions
mod Calendar
mod Courses
mod Syncs
mod Portals
mod Timetables
