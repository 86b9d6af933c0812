-- ===== src/Holidays/Fetch.antt =====
-- fetch_user_holidays of app/services/holidays_service.py. The pooled session, the GET of the home page
-- and the postback of app/nitris/client.py are parameters: what they return or raise.
use updatednitr.Prelude.{
  ℕ, zero, suc, Bool, true, false, Option, none, some, [], ◌∷◌, String, Text, if◌then◌else◌, ◌==◌,
  text_eq, lower, lookup,
}
use updatednitr.Holidays.Pages.{HolidaysPage}
use updatednitr.Holidays.Months.{
  Direction, prev, next, target_month_label, step_direction, neighbour,
}
use updatednitr.Holidays.Cache.{
  Served, Calendar, month_eq, served, store_user_page, get_cached_user_page, get_cached_holidays,
  store_cached_holidays, cache_intermediate_page,
}

-- The exceptions that the function tells apart, each with the text that its answer shows.
pub data Fault : Type 0 where
  circuit_open unavailable : Fault
  login_error : String → Fault
  value_error : String → Fault
  parse_error : String → Fault
  other_error : String → Fault

pub data Attempt : Type 0 where
  done : HolidaysPage → Attempt
  raises : Fault → Attempt

-- A step from a page.
abbrev pub Navigate : Type 0
Navigate = HolidaysPage → Direction → Attempt

abbrev pub argument : Direction → HolidaysPage → Option Text
argument prev page = page.prev_event_argument
argument next page = page.next_event_argument

abbrev no_link : Fault
no_link = value_error "Cannot navigate: the NITRIS calendar offers no link."

-- navigate_holidays_month: a page without the link of the step raises ValueError; `post` is the postback
-- with an argument, and what its answer is parsed to or raises.
unfoldable pub navigate_holidays_month : (post : HolidaysPage → Text → Attempt) → Navigate
navigate_holidays_month post page d = elim (argument d page) [
  | none ↦ raises no_link
  | some [] ↦ raises no_link
  | some (c ∷ s) ↦ post page (c ∷ s)
]

-- After a step of the walk: a boundary of the calendar ends it where it stands.
abbrev pub after_step :
    (now : ℕ)
    → HolidaysPage
    → (Calendar → HolidaysPage → Calendar × Attempt)
    → Calendar
    → Attempt
    → Calendar × Attempt
after_step now walker rest c (done page) = rest (cache_intermediate_page now page c) page
after_step now walker rest c (raises circuit_open) = (c, raises circuit_open)
after_step now walker rest c (raises unavailable) = (c, raises unavailable)
after_step now walker rest c (raises (login_error m)) = (c, raises (login_error m))
after_step now walker rest c (raises (value_error m)) = (c, done walker)
after_step now walker rest c (raises (parse_error m)) = (c, raises (parse_error m))
after_step now walker rest c (raises (other_error m)) = (c, raises (other_error m))

-- The loop `for _ in range(24)`, with the rounds left; `clock` is the time of each round.
unfoldable pub walk :
    (left : ℕ)
    → (clock : ℕ → ℕ) → Navigate
    → (target : Text) → Calendar
    → HolidaysPage
    → Calendar × Attempt
walk zero clock navigate target c walker = (c, done walker)
walk (suc left) clock navigate target c walker = elim (step_direction walker target) [
  | none ↦ (c, done walker)
  | some d ↦ after_step (clock left) walker (walk left clock navigate target) c (navigate walker d)
]

-- _work on a page that has been opened, for a navigation.
unfoldable pub work_from :
    (clock : ℕ → ℕ) → Navigate → HolidaysPage → Direction → Calendar → Attempt → Calendar × Attempt
unfolding walk
work_from clock navigate current d c (raises e) = (c, raises e)
work_from clock navigate current d c (done fresh) =
    let target = target_month_label current d in
    let walked = walk 24 clock navigate target c fresh in
    if lower fresh.month_label == lower target then (c, done fresh) else walked

abbrev work :
    (clock : ℕ → ℕ)
    → Navigate
    → Attempt
    → Option Direction
    → Option HolidaysPage
    → Calendar
    → Calendar × Attempt
unfolding work_from
work clock navigate home (some d) (some current) c = work_from clock navigate current d c home
work clock navigate home (some d) none c = (c, home)
work clock navigate home none current c = (c, home)

pub data Response : Type 0 where
  success : Served → Response
  failure : String → Response

-- The user's row: `none` is no user.
pub record Account : Type 0 where
  pub credentials_valid : Bool

-- What the call leaves: the caches, the answer, and the message of on_login_failure if it was called.
pub record Outcome : Type 0 where
  pub calendar : Calendar
  pub response : Response
  pub login_failure : Option String

abbrev answer : Calendar → Response → Outcome
answer c r = record { calendar = c; response = r; login_failure = none }

unfoldable pub conclude : (now user_id : ℕ) → Calendar → Attempt → Outcome
conclude now user_id c (done page) =
    let stored = store_user_page now user_id page c in
    answer (store_cached_holidays now page (served page) stored) (success (served page))
conclude now user_id c (raises circuit_open) = answer c (
    failure
      "NITRIS is temporarily unavailable due to high portal load. Please try again in ~60 seconds.")
conclude now user_id c (raises unavailable) =
    answer c (failure "NITRIS is temporarily unreachable. Please try again in a few minutes.")
conclude now user_id c (raises (login_error m)) = record {
  calendar = c;
  response =
      failure
        "Login failed. Your NITRIS password may have changed. Please use /forgot to update it.";
  login_failure = some m;
}
conclude now user_id c (raises (value_error m)) = answer c (failure m)
conclude now user_id c (raises (parse_error m)) = answer c (failure m)
conclude now user_id c (raises (other_error m)) = answer c (failure m)

-- Serving a month from the institute's cache: the user's page is set to the cached one.
unfoldable pub serve : (now user_id : ℕ) → Served → ℕ × ℕ → Calendar → Outcome
serve now user_id cached ym c = elim (lookup ym c.global_month_cache) [
  | none ↦ answer c (success cached)
  | some e ↦ answer (store_user_page now user_id e.page c) (success cached)
]

-- The portal as one call meets it.
pub record Portal : Type 0 where
  pub clock : ℕ → ℕ
  pub home : Attempt
  pub post : HolidaysPage → Text → Attempt

abbrev from_portal :
    (later user_id : ℕ) → Portal → Option Direction → Option HolidaysPage → Calendar → Outcome
unfolding work_from navigate_holidays_month
from_portal later user_id p direction current c =
    let (c', attempt) = work p.clock (navigate_holidays_month p.post) p.home direction current c in
    conclude later user_id c' attempt

-- The fast paths and what is behind them, once the current page is known.
unfoldable pub navigate_or_fetch :
    (now later user_id : ℕ)
    → (force_refresh : Bool) → Portal
    → Option Direction
    → Option HolidaysPage
    → Calendar
    → Outcome
unfolding serve work_from conclude navigate_holidays_month
navigate_or_fetch now later user_id force p (some d) (some current) c =
    let fetched = from_portal later user_id p (some d) (some current) c in
    if force then fetched else (elim (get_cached_holidays now (neighbour current d) c) [
      | none ↦ fetched
      | some cached ↦ serve now user_id cached (neighbour current d) c
    ])
navigate_or_fetch now later user_id force p (some d) none c =
    from_portal later user_id p (some d) none c
navigate_or_fetch now later user_id force p none current c =
    from_portal later user_id p none current c

-- `if direction and current_page is None`: the user's page is looked up, and dropped if it is stale.
unfoldable pub with_current_page :
    (now later user_id : ℕ)
    → (force_refresh : Bool) → Portal
    → Option Direction
    → Option HolidaysPage
    → Calendar
    → Outcome
unfolding navigate_or_fetch
with_current_page now later user_id force p (some d) none c =
    let (c', page) = get_cached_user_page now user_id c in
    navigate_or_fetch now later user_id force p (some d) page c'
with_current_page now later user_id force p (some d) (some page) c =
    navigate_or_fetch now later user_id force p (some d) (some page) c
with_current_page now later user_id force p none current c =
    navigate_or_fetch now later user_id force p none current c

abbrev current_month :
    (now later : ℕ) (today : ℕ × ℕ) (user_id : ℕ)
    → (force_refresh : Bool) → Portal
    → Option Direction
    → Option HolidaysPage
    → Calendar
    → Outcome
unfolding serve with_current_page
current_month now later today user_id false p none current c =
    elim (get_cached_holidays now today c) [
      | none ↦ with_current_page now later user_id false p none current c
      | some cached ↦ serve now user_id cached (cached.year, cached.month) c
    ]
current_month now later today user_id false p (some d) current c =
    with_current_page now later user_id false p (some d) current c
current_month now later today user_id true p direction current c =
    with_current_page now later user_id true p direction current c

-- `now` is the time before the portal is asked, `later` that after, `today` the month of the day in IST.
unfoldable pub fetch_user_holidays :
    (now later : ℕ) (today : ℕ × ℕ) (user_id : ℕ)
    → Option Account
    → (force_refresh : Bool) → Portal
    → Option Direction
    → Option HolidaysPage
    → Calendar
    → Outcome
unfolding serve with_current_page
fetch_user_holidays now later today user_id none force p direction current c =
    answer c (failure "User not found")
fetch_user_holidays now later today user_id (some a) force p direction current c =
    let outcome = current_month now later today user_id force p direction current c in
    if a.credentials_valid
    then outcome
    else answer c (failure "Credentials marked invalid. Please /forgot to update.")
