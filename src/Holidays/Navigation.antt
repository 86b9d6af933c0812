-- ===== src/Holidays/Navigation.antt =====
-- Navigating the calendar by fetch_user_holidays of app/services/holidays_service.py.
use updatednitr.Prelude.{
  ℕ, ◌+◌, ◌≤◌, ◌≡◌, refl, ◌∙◌, inl, inr, Bool, true, false, some, arith, Option-cases, lower, ◌==◌,
  text_eq, lookup, if◌then◌else◌,
}
use updatednitr.Holidays.Pages.{HolidaysPage}
use updatednitr.Holidays.Months.{
  Direction, prev, next, label, step_month, target_month_label, neighbour,
}
use updatednitr.Holidays.Cache.{Served, Cached, Calendar, month_eq, served, get_cached_holidays}
use updatednitr.Holidays.Fetch.{
  Attempt, done, work_from, navigate_holidays_month, Portal, Account, Response, success,
  fetch_user_holidays, with_current_page, navigate_or_fetch, serve, conclude, walk,
}
use updatednitr.Holidays.Walk.{
  IsStepped, IsOnCalendar, HasLink, IsMonth, IsArrived, serial, walk_near, arrived,
}

neighbour-step_month :
    (page : HolidaysPage) (d : Direction)
    → 1 ≤ page.month
    → neighbour page d ≡ step_month d (page.year, page.month)
unfolding neighbour step_month
neighbour-step_month page prev h = ground arith
neighbour-step_month page next h = ground arith

-- The portal's calendar goes from the month counted `first` to the one counted `last` and has the month `t`.
-- It opens within 24 months of it. Each page that it shows is of one of its months, under that month's
-- name, with links to the neighbours that the calendar has, and a link leads to the page of the neighbour.
pub record IsPortal (p : Portal) (first last : ℕ) (Shown : HolidaysPage → Type 0) (t : ℕ × ℕ)
    : Type 0 where
  pub fresh : HolidaysPage
  pub opens : p.home ≡ done fresh
  pub shown : Shown fresh
  pub ahead : serial (fresh.year, fresh.month) ≤ serial t + 24
  pub behind : serial t ≤ serial (fresh.year, fresh.month) + 24
  pub since : first ≤ serial t
  pub until : serial t ≤ last
  pub on : (page : HolidaysPage) → Shown page → IsOnCalendar first last page
  pub steps :
      (page : HolidaysPage) (d : Direction)
      → Shown page
      → HasLink page d
      → IsStepped Shown page d (navigate_holidays_month p.post page d)

-- The answer is a month's.
pub record Answers (t : ℕ × ℕ) (r : Response) : Type 0 where
  pub res : Served
  pub succeeds : r ≡ success res
  pub month : (res.year, res.month) ≡ t

module _ (first last : ℕ) (Shown : HolidaysPage → Type 0) where
  work_from-IsArrived :
      (p : Portal) (page : HolidaysPage) (d : Direction) (c : Calendar)
      → IsMonth (step_month d (page.year, page.month))
      → IsPortal p first last Shown (step_month d (page.year, page.month))
      → IsArrived
          (step_month d (page.year, page.month))
          (work_from p.clock (navigate_holidays_month p.post) page d c p.home).1
  unfolding work_from target_month_label
  work_from-IsArrived p page d c known portal = rw portal.opens (
      go (lower portal.fresh.month_label == lower (label t)) refl (
        walk_near t known p.clock (navigate_holidays_month p.post) first last Shown portal.on
          portal.since portal.until portal.steps 24 c portal.fresh portal.shown portal.ahead
          portal.behind))
    where
      t : ℕ × ℕ
      t = step_month d (page.year, page.month)

      go :
          (b : Bool)
          → (lower portal.fresh.month_label == lower (label t)) ≡ b
          → IsArrived t
              (walk 24 p.clock (navigate_holidays_month p.post) (label t) c portal.fresh).1
          → IsArrived t
              (if b
                then (c, done portal.fresh)
                else walk 24 p.clock (navigate_holidays_month p.post) (label t) c portal.fresh).1
      go true e h = record {
        there = portal.fresh;
        returns = refl;
        month = arrived portal.fresh t (portal.on portal.fresh portal.shown).labelled known e;
      }
      go false e h = h

conclude-Answers :
    (now user_id : ℕ) (c : Calendar) (a : Attempt) (t : ℕ × ℕ)
    → IsArrived t a
    → Answers t (conclude now user_id c a).response
unfolding conclude served
conclude-Answers now user_id c a t h = record {
  res = served h.there;
  succeeds = rw (h.returns, conclude) refl;
  month = h.month;
}

-- Every month of the institute's cache is kept under its own key.
pub record IsKeyed (c : Calendar) : Type 0 where
  pub own :
      (ym : ℕ × ℕ) (e : Cached)
      → lookup ym c.global_month_cache ≡ some e
      → (e.res_dict.year, e.res_dict.month) ≡ ym

serve-Answers :
    (now user_id : ℕ) (cached : Served) (ym t : ℕ × ℕ) (c : Calendar)
    → (cached.year, cached.month) ≡ t
    → Answers t (serve now user_id cached ym c).response
unfolding serve
serve-Answers now user_id cached ym t c h = elim (Option-cases (lookup ym c.global_month_cache)) [
  | inl e ↦ record { res = cached; succeeds = rw (e, serve) refl; month = h }
  | inr (x, e) ↦ record { res = cached; succeeds = rw (e, serve) refl; month = h }
]

get_cached_holidays-month :
    (now : ℕ) (ym : ℕ × ℕ) (c : Calendar) (res : Served)
    → IsKeyed c
    → get_cached_holidays now ym c ≡ some res
    → (res.year, res.month) ≡ ym
unfolding get_cached_holidays
get_cached_holidays-month now ym c res k h = elim (Option-cases (lookup ym c.global_month_cache)) [
  | inl e ↦ ground (arith, e, h)
  | inr (x, e) ↦ let same : x.res_dict ≡ res = ground (arith, e, h) in rw (← same) (k.own ym x e)
]

module _ (first last : ℕ) (Shown : HolidaysPage → Type 0) where
  navigate_or_fetch-Answers :
      (now later user_id : ℕ) (force : Bool) (p : Portal) (d : Direction) (page : HolidaysPage)
      (c : Calendar)
      → IsKeyed c
      → 1 ≤ page.month
      → IsMonth (step_month d (page.year, page.month))
      → IsPortal p first last Shown (step_month d (page.year, page.month))
      → Answers
          (step_month d (page.year, page.month))
          (navigate_or_fetch now later user_id force p (some d) (some page) c).response
  unfolding navigate_or_fetch work_from conclude serve
  navigate_or_fetch-Answers now later user_id true p d page c k one known portal =
      conclude-Answers later user_id
        (work_from p.clock (navigate_holidays_month p.post) page d c p.home).0 _ _
        (work_from-IsArrived first last Shown p page d c known portal)
  navigate_or_fetch-Answers now later user_id false p d page c k one known portal =
      elim (Option-cases (get_cached_holidays now (neighbour page d) c)) [
        | inl e ↦
            rw (e, navigate_or_fetch)
              (conclude-Answers later user_id
                (work_from p.clock (navigate_holidays_month p.post) page d c p.home).0 _ _
                (work_from-IsArrived first last Shown p page d c known portal))
        | inr (res, e) ↦
            rw (e, navigate_or_fetch)
              (serve-Answers now user_id res (neighbour page d) _ c (
                get_cached_holidays-month now (neighbour page d) c res k e
                ∙ neighbour-step_month page d one))
      ]

  -- A user with valid credentials who steps from a month that he looks at gets the month before or after
  -- it, across the turn of the year too: from the cache or, when it is forced or not cached, from the
  -- portal. The portal's calendar has the month and opens within 24 months of it; its pages have labels
  -- like the program's, and links to the neighbouring months but beyond its ends, each of which leads to
  -- the page of that month. Each month is cached under its own key, and the years have four digits.
  pub fetch_user_holidays-neighbour :
      (now later : ℕ) (today : ℕ × ℕ) (user_id : ℕ) (a : Account) (force : Bool) (p : Portal)
      (d : Direction) (page : HolidaysPage) (c : Calendar)
      → a.credentials_valid ≡ true
      → IsKeyed c
      → 1 ≤ page.month
      → IsMonth (step_month d (page.year, page.month))
      → IsPortal p first last Shown (step_month d (page.year, page.month))
      → Answers
          (step_month d (page.year, page.month))
          (fetch_user_holidays now later today user_id
            (some a)
            force
            p
            (some d)
            (some page)
            c).response
  unfolding fetch_user_holidays with_current_page
  fetch_user_holidays-neighbour now later today user_id a true p d page c valid k one known portal =
      rw valid (navigate_or_fetch-Answers now later user_id true p d page c k one known portal)
  fetch_user_holidays-neighbour now later today user_id a false p d page c valid k one known
        portal =
      rw valid (navigate_or_fetch-Answers now later user_id false p d page c k one known portal)
