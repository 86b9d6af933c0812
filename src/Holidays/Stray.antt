-- ===== src/Holidays/Stray.antt =====
-- What the walk of app/services/holidays_service.py does when the portal writes a label otherwise than
-- the program: app/nitris/holidays_parser.py also accepts `September, 2026`.
use updatednitr.Prelude.{ℕ, zero, suc, ◌≡◌, false, lower, ◌==◌, text_eq}
use updatednitr.Holidays.Pages.{HolidaysPage}
use updatednitr.Holidays.Months.{Direction, label}
use updatednitr.Holidays.Fetch.{Attempt, done}
use updatednitr.Holidays.Walk.{HasLink}

-- A page of a month whose label the comparison does not recognise, with the link of a step.
pub record IsStray (t ym : ℕ × ℕ) (d : Direction) (page : HolidaysPage) : Type 0 where
  pub month : (page.year, page.month) ≡ ym
  pub label : (lower page.month_label == lower (label t)) ≡ false
  pub link : HasLink page d

pub record Shows (t ym : ℕ × ℕ) (d : Direction) (a : Attempt) : Type 0 where
  pub there : HolidaysPage
  pub answers : a ≡ done there
  pub stray : IsStray t ym d there

abbrev pub twice : ℕ → ℕ
twice zero = zero
twice (suc n) = suc (suc (twice n))
