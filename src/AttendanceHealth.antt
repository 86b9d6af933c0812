-- ===== src/AttendanceHealth.antt =====
-- app/services/attendance_health.py: how near a student is to being debarred from a course. A ratio of
-- absences is compared as a fraction: for the limits of the table, all below 20, the comparison of the
-- rounded quotients comes to the same.
pub mod Numbers
pub mod Subject
pub mod Summary
pub mod Limits
pub mod Alerts
pub mod Worst
