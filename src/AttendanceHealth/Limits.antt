-- ===== src/AttendanceHealth/Limits.antt =====
-- What the levels of app/services/attendance_health.py mean for the student.
use updatednitr.Prelude.{ℕ, ◌+◌, ◌*◌, ◌≤◌, ◌≡◌, ◌||◌, arith, leb, if◌then◌else◌}
use updatednitr.AttendanceHealth.Numbers.{pos, ◌-ℤ◌}
use updatednitr.AttendanceHealth.Summary.{rank}
use updatednitr.AttendanceHealth.Subject.{
  DebarRule, debarred, danger, risk, warn, safe, level_of, used_ratio,
}

level_of_pos :
    (r : DebarRule) (ua oa : ℕ)
    → level_of r (pos ua) (pos oa) ≡ (
        if leb r.ua_limit ua || leb (r.oa_cap + 1) oa
        then debarred
        else if leb r.ua_limit (ua + 2) || leb r.oa_cap oa
        then danger
        else if leb (4 * r.ua_limit) (5 * ua)
        then risk
        else if leb r.ua_limit (2 * ua)
        then warn
        else safe)
unfolding level_of ◌-ℤ◌ used_ratio
level_of_pos r ua oa = ground arith

-- More absences, unauthorised or in total, never give a course a better level: the place in
-- _LEVEL_ORDER never rises.
pub level_of_mono :
    (r : DebarRule) (ua oa ua' oa' : ℕ)
    → ua ≤ ua'
    → oa ≤ oa'
    → rank (level_of r (pos ua') (pos oa')) ≤ rank (level_of r (pos ua) (pos oa))
level_of_mono r ua oa ua' oa' h k = rw (level_of_pos r ua oa, level_of_pos r ua' oa') (ground arith)
