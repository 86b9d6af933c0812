-- ===== src/Examples/Calendar.antt =====
-- Runs of the holiday calendar (app/services/holidays_service.py).
use mathlib.Core.Path.{subst}
use updatednitr.Prelude.{
  ℕ, ◌+◌, ◌≡◌, ◌≤◌, refl, sym, nat_beq_iff, true, false, none, some, [], ◌∷◌, arith, codes,
  if◌then◌else◌, Text, ◌==◌, nat_eq, text_eq, Bool-cases, inl, inr, lookup,
}
use updatednitr.Holidays.Pages.{HolidaysPage}
use updatednitr.Holidays.Months.{Direction, prev, next, label, step_month}
use updatednitr.Holidays.Cache.{
  Cached, Calendar, month_eq, save_disk_cache, load_disk_cache, served,
}
use updatednitr.Holidays.Restart.{load_disk_cache-save, after_restart}
use updatednitr.Holidays.Fetch.{Attempt, Portal, done, navigate_holidays_month, fetch_user_holidays}
use updatednitr.Holidays.Navigation.{IsPortal, IsKeyed, Answers, fetch_user_holidays-neighbour}
use updatednitr.Holidays.Walk.{IsMonth, IsOnCalendar, IsStepped, HasLink, serial}

-- The calendar of the portal goes from June 2026 to May 2027.
abbrev first : ℕ
first = serial (2026, 6)

abbrev last : ℕ
last = serial (2027, 5)

abbrev page_of : ℕ × ℕ → Text → HolidaysPage
page_of (y, m) l = record {
  month = m;
  year = y;
  month_label = l;
  holidays =
      record { day = 2; name = codes "Gandhi Jayanti"; month = m; year = y; is_trailing = false }
      ∷ [];
  prev_event_argument = if serial (y, m) == first then none else some (codes "P");
  next_event_argument = if serial (y, m) == last then none else some (codes "N");
  event_target = codes "cal1";
  raw_html = [];
}

abbrev december : HolidaysPage
december = page_of (2026, 12) (label (2026, 12))

abbrev kept : Cached
kept = record { res_dict = served december; page = december; expires_at = 77 }

abbrev one_month : Calendar
one_month = record { global_month_cache = ((2026, 12), kept) ∷ []; user_calendar_pages = [] }

abbrev empty : Calendar
empty = record { global_month_cache = []; user_calendar_pages = [] }

fresh : lookup (2026, 12) empty.global_month_cache ≡ none
unfolding lookup
fresh = refl

load_disk_cache-save_example :
    lookup
      (2026, 12)
      (load_disk_cache 5
        (codes "cal")
        (save_disk_cache one_month.global_month_cache)
        empty.global_month_cache)
    ≡ after_restart 5
        (lookup (2026, 12) one_month.global_month_cache)
        (lookup (2026, 12) empty.global_month_cache)
load_disk_cache-save_example =
    load_disk_cache-save 5 (codes "cal") (2026, 12) one_month.global_month_cache
      empty.global_month_cache (fresh, refl, tt)

abbrev page_at : ℕ × ℕ → HolidaysPage
page_at ym = page_of ym (label ym)

abbrev post : HolidaysPage → Text → Attempt
post page event =
    let d = if event == codes "P" then prev else next in
    done (page_at (step_month d (page.year, page.month)))

abbrev portal : Portal
portal = record { clock = λ n. 100 + n; home = done (page_at (2026, 10)); post = post }

abbrev IsShown : HolidaysPage → Type 0
IsShown page =
    (ym : ℕ × ℕ) × IsMonth ym × (first ≤ serial ym) × (serial ym ≤ last) × (page ≡ page_at ym)

page_at-IsOnCalendar : (ym : ℕ × ℕ) → IsMonth ym → IsOnCalendar first last (page_at ym)
page_at-IsOnCalendar (y, m) h = record {
  labelled = record { month = h; label = refl };
  back = elim (Bool-cases (serial (y, m) == first)) [
    | inl e ↦ inl (ground (arith, nat_beq_iff (serial (y, m)) first))
    | inr e ↦ inr (80, [], rw e refl)
  ];
  forth = elim (Bool-cases (serial (y, m) == last)) [
    | inl e ↦ inl (ground (arith, nat_beq_iff (serial (y, m)) last))
    | inr e ↦ inr (78, [], rw e refl)
  ];
}

IsWithin : ℕ × ℕ → Type 0
IsWithin ym = IsMonth ym × (first ≤ serial ym) × (serial ym ≤ last)

step_month_prev-IsWithin :
    (y m : ℕ)
    → IsWithin (y, m)
    → (serial (y, m) == first) ≡ false
    → IsWithin (step_month prev (y, m))
unfolding IsWithin step_month
step_month_prev-IsWithin y m h e = ground (arith, nat_beq_iff (serial (y, m)) first)

step_month_next-IsWithin :
    (y m : ℕ)
    → IsWithin (y, m)
    → (serial (y, m) == last) ≡ false
    → IsWithin (step_month next (y, m))
unfolding IsWithin step_month
step_month_next-IsWithin y m h e = ground (arith, nat_beq_iff (serial (y, m)) last)

page_at-IsStepped :
    (ym : ℕ × ℕ) (d : Direction)
    → IsMonth ym
    → first ≤ serial ym
    → serial ym ≤ last
    → HasLink (page_at ym) d
    → IsStepped IsShown (page_at ym) d (navigate_holidays_month post (page_at ym) d)
unfolding navigate_holidays_month IsWithin
page_at-IsStepped (y, m) prev h lo hi (c, s, l) = elim (Bool-cases (serial (y, m) == first)) [
  | inl e ↦ absurd (ground (arith, l, e))
  | inr e ↦
      let (h', lo', hi') = step_month_prev-IsWithin y m (h, lo, hi) e in
      record {
        there = page_at (step_month prev (y, m));
        answers = rw e refl;
        month = refl;
        shown = (step_month prev (y, m), h', lo', hi', refl);
      }
]
page_at-IsStepped (y, m) next h lo hi (c, s, l) = elim (Bool-cases (serial (y, m) == last)) [
  | inl e ↦ absurd (ground (arith, l, e))
  | inr e ↦
      let (h', lo', hi') = step_month_next-IsWithin y m (h, lo, hi) e in
      record {
        there = page_at (step_month next (y, m));
        answers = rw e refl;
        month = refl;
        shown = (step_month next (y, m), h', lo', hi', refl);
      }
]

portal-IsPortal : IsPortal portal first last IsShown (step_month next (2026, 12))
unfolding step_month
portal-IsPortal = record {
  fresh = page_at (2026, 10);
  opens = refl;
  shown = ((2026, 10), omega arith, omega arith, omega arith, refl);
  ahead = omega arith;
  behind = omega arith;
  since = omega arith;
  until = omega arith;
  on = λ page (ym, h, lo, hi, e).
      subst (IsOnCalendar first last) (sym e) (page_at-IsOnCalendar ym h);
  steps = λ page d (ym, h, lo, hi, e).
      subst (λ w. HasLink w d → IsStepped IsShown w d (navigate_holidays_month post w d)) (sym e)
        (page_at-IsStepped ym d h lo hi);
}

empty-IsKeyed : IsKeyed empty
unfolding lookup
empty-IsKeyed = record { own = λ ym e h. ground (arith, h) }

january : IsMonth (step_month next (2026, 12))
unfolding step_month
january = omega arith

-- The step across the turn of the year.
fetch_user_holidays-neighbour_example :
    Answers
      (step_month next (2026, 12))
      (fetch_user_holidays 10 200
        (2026, 10)
        7
        (some (record { credentials_valid = true }))
        false
        portal
        (some next)
        (some december)
        empty).response
fetch_user_holidays-neighbour_example =
    fetch_user_holidays-neighbour first last IsShown 10 200 (2026, 10) 7
      (record { credentials_valid = true }) false portal next december empty refl empty-IsKeyed
      (omega arith) january portal-IsPortal

-- A portal that writes commas.
abbrev comma_label : ℕ → Text
comma_label m = if m == 10 then codes "October, 2026" else codes "September, 2026"

abbrev comma_page : ℕ → HolidaysPage
comma_page m = page_of (2026, m) (comma_label m)

abbrev commas : HolidaysPage → Text → Attempt
commas page event = done (comma_page (if page.month == 9 then 10 else 9))
