-- ===== src/Examples/Courses.antt =====
-- Runs of the attendance health of courses (app/services/attendance_health.py).
use updatednitr.Prelude.{◌≡◌, refl, true, some, [], ◌∷◌, codes, lookup, string_eq, text_eq}
use updatednitr.AttendanceHealth.Numbers.{pos, to_int, normalize_ltp}
use updatednitr.AttendanceHealth.Subject.{
  DebarRule, Scraped, subject_health, skips_left_line, skips_left,
}
use updatednitr.AttendanceHealth.Summary.{summarize}
use updatednitr.AttendanceHealth.Alerts.{IsExact, skips_left_line-IsExact}
use updatednitr.AttendanceHealth.Worst.{IsWorst, summarize-IsWorst}

abbrev lab : DebarRule
lab = record { ltp = codes "0-0-3"; ua_limit = 5; oa_cap = 6 }

-- One absence below the limit of a laboratory.
abbrev scraped : Scraped
scraped =
    ("subject_code", codes "EE2001")
    ∷ ("ltp", codes "0 -0- 3")
    ∷ ("tc", codes "20")
    ∷ ("ua", codes "04")
    ∷ ("le", codes "-")
    ∷ ("oa", codes "4")
    ∷ []

last_one : skips_left_line scraped ≡ some (skips_left true (codes "EE2001") (pos 1) 5)
unfolding skips_left_line subject_health lookup to_int normalize_ltp
last_one = refl

skips_left_line-IsExact_example :
    IsExact (subject_health scraped) (skips_left true (codes "EE2001") (pos 1) 5)
skips_left_line-IsExact_example = skips_left_line-IsExact scraped _ last_one

summarize-IsWorst_example : IsWorst (summarize (scraped ∷ [] ∷ []))
summarize-IsWorst_example = summarize-IsWorst (scraped ∷ [] ∷ [])
