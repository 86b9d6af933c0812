-- ===== src/Client/Attendance.antt =====
-- fetch_attendance of app/nitris/client.py: the way through the portal's dropdowns to the attendance
-- table.
use updatednitr.Prelude.{
  ℕ, ◌+◌, Bool, false, not, ◌&&◌, ◌||◌, Option, none, some, List, [], ◌∷◌, ◌++◌, if◌then◌else◌,
  ◌==◌, nat_eq, text_eq, Text, Dict, lookup, insert, erase, codes, has_text, ltb,
}
use updatednitr.AttendanceHealth.Subject.{Scraped}
use updatednitr.Client.Http.{
  Fault, session_expired, invalid_context, workflow, table_missing, no_form, http_error, Result, ok,
  fail, Portal, World, M, ◌>>=◌, form_fields,
}
use updatednitr.Client.Options.{
  Choice, prioritize, current_semester_type, get_sorted_academic_years, get_prioritized_sessions,
  pick_option,
}
use updatednitr.Client.Postback.{submit_postback, fetch_attendance_page}
use updatednitr.Client.Resolve.{
  empty_text, peek_cached_subpage_url, touch_resolved_url, resolve_module_subpage_url,
}

abbrev ctl : Text → Text
ctl s = codes "ctl00$ctl00$ctl00$ContentPlaceHolder2$ContentPlaceHolder1$mainContent$" ++ s

abbrev pub ctl_semester : Text
ctl_semester = ctl (codes "ddlSemesterType")

abbrev pub ctl_academic_year : Text
ctl_academic_year = ctl (codes "ddlAcYr")

abbrev pub ctl_session : Text
ctl_session = ctl (codes "ddlSession")

abbrev pub attendance_module_name : Text
attendance_module_name = codes "Attendance and Leave"

abbrev pub attendance_sidebar_link_keyword : Text
attendance_sidebar_link_keyword = codes "ClassAttendance.aspx"

unfoldable pub has_session_dropdown : Text → Bool
has_session_dropdown html = has_text (codes "name=\"" ++ (ctl_session ++ codes "\"")) html

unfoldable pub has_attendance_table : Text → Bool
has_attendance_table html =
    has_text (codes "id=\"ContentPlaceHolder2_ContentPlaceHolder1_mainContent_gvSubjects\"") html

-- The option that a loop settles on: its value, its page, and what the test of the page gave.
pub record Chosen (B : Type 0) : Type 0 where
  pub value : Text
  pub html : Text
  pub result : B

-- Whether the page in hand has the option selected already.
abbrev pub is_selected : Dict Text Text → Text → Text → Bool
is_selected form_state control value = elim (lookup control form_state) [
  | none ↦ false
  | some v ↦ v == value
]

abbrev pub accepts_year : Text → Option Text
unfolding has_session_dropdown
accepts_year html = if has_session_dropdown html then some html else none

-- What a loop found, or the exception that its failure raises.
abbrev pub settle : {S B : Type 0} → Fault → Option (Chosen B) → M S (Chosen B)
settle e none w = (w, fail e)
settle e (some c) w = (w, ok c)

module _ {S : Type 0} (p : Portal S) where
  -- The page of an option: the one in hand, or that of a postback.
  unfoldable pub option_page :
      (url html : Text) → (form_state : Dict Text Text) → (control value : Text) → M S Text
  unfolding submit_postback
  option_page url html form_state control value w =
      let posted = submit_postback p url form_state control ((control, value) ∷ []) w in
      if is_selected form_state control value then (w, ok html) else posted

  module _ {B : Type 0} where
    abbrev pub settle_or :
        (value page : Text)
        → (World S → World S × Result (Option (Chosen B)))
        → Option B
        → M S (Option (Chosen B))
    settle_or value page rest none w = rest w
    settle_or value page rest (some b) w =
        (w, ok (some (record { value = value; html = page; result = b })))

    abbrev pub skip_or :
        (accepts : Text → Option B)
        → Text
        → (World S → World S × Result (Option (Chosen B)))
        → World S × Result Text
        → World S × Result (Option (Chosen B))
    skip_or accepts value rest (w, ok page) = settle_or value page rest (accepts page) w
    skip_or accepts value rest (w, fail invalid_context) = rest w
    skip_or accepts value rest (w, fail session_expired) = (w, fail session_expired)
    skip_or accepts value rest (w, fail workflow) = (w, fail workflow)
    skip_or accepts value rest (w, fail table_missing) = (w, fail table_missing)
    skip_or accepts value rest (w, fail no_form) = (w, fail no_form)
    skip_or accepts value rest (w, fail http_error) = (w, fail http_error)

    -- The loops of steps 3 and 4: the first option whose page is accepted; an option whose context is
    -- invalid is skipped.
    unfoldable pub probe :
        (accepts : Text → Option B)
        → (url html : Text) → (form_state : Dict Text Text) → (control : Text) → List Choice
        → M S (Option (Chosen B))
    unfolding option_page
    probe accepts url html form_state control [] w = (w, ok none)
    probe accepts url html form_state control ((value, text) ∷ options) w =
        skip_or accepts value (probe accepts url html form_state control options)
          (option_page url html form_state control value w)

  -- Step 4 also parses the page, and hands the result over.
  unfoldable pub accepts_session : Text → Option (List Scraped)
  unfolding has_attendance_table
  accepts_session html = if has_attendance_table html then p.parse_attendance_html html else none

  -- The hint of the student, if it is fresh; a stale one is dropped.
  unfoldable pub read_hint : Option Text → World S → World S × (Option Text × Option Text)
  read_hint none w = (w, (none, none))
  read_hint (some []) w = (w, (none, none))
  read_hint (some (c ∷ s)) w =
      let dropped : World S × (Option Text × Option Text) =
        (record w { hints = erase (c ∷ s) w.hints }, (none, none)) in
      elim (lookup (c ∷ s) w.hints) [
        | none ↦ dropped
        | some h ↦
            if ltb (p.time w.server) h.expires_at
            then (w, (some h.year, some h.session))
            else dropped
      ]

  -- Step 2 is left out where the page has the semester selected.
  unfoldable pub select_semester : (url html semester : Text) → M S Text
  unfolding form_fields pick_option option_page submit_postback
  select_semester url html semester = do
    form_state ← form_fields p html
    λ w.
        let sem_value = pick_option (p.extract_dropdown_options html ctl_semester) semester in
        let posted =
          submit_postback p url form_state ctl_semester ((ctl_semester, sem_value) ∷ []) w in
        if not (empty_text sem_value) && is_selected form_state ctl_semester sem_value
        then (w, ok html)
        else posted

  -- Step 3; no year to try raises the same exception as a failure of all of them.
  unfoldable pub select_year : (url html : Text) → (hint_year : Option Text) → M S (Chosen Text)
  unfolding form_fields get_sorted_academic_years prioritize probe has_session_dropdown
  select_year url html hint_year = do
    form_state ← form_fields p html
    valid_years ← λ w. (
      w,
      ok (
          get_sorted_academic_years p.current_start_year
            (p.extract_dropdown_options html ctl_academic_year)),
    )
    found ←
        probe accepts_year url html form_state ctl_academic_year (prioritize valid_years hint_year)
    settle workflow found

  -- Step 4
  unfoldable pub select_session :
      (url html semester : Text) → (hint_session : Option Text) → M S (Chosen (List Scraped))
  unfolding form_fields get_prioritized_sessions prioritize probe accepts_session
  select_session url html semester hint_session = do
    form_state ← form_fields p html
    options ← λ w. (w, ok (p.extract_dropdown_options html ctl_session))
    prioritized_sessions ← λ w. (
      w,
      elim options [
        | [] ↦ fail workflow
        | o ∷ os ↦ ok (get_prioritized_sessions semester (o ∷ os))
      ],
    )
    found ←
        probe accepts_session url html form_state ctl_session
          (prioritize prioritized_sessions hint_session)
    settle table_missing found

  unfoldable pub semester_or : Option Text → Text
  unfolding current_semester_type
  semester_or none = current_semester_type p.month
  semester_or (some s) = s

  module _ (url_ttl hint_ttl : ℕ) where
    unfoldable pub save_hint : Option Text → (year session : Text) → World S → World S
    save_hint none year session w = w
    save_hint (some key) year session w =
        if empty_text key || (empty_text year || empty_text session) then w else record w {
          hints =
              insert key
                (record { year = year; session = session; expires_at = p.time w.server + hint_ttl })
                w.hints;
        }

    -- A cached URL is tried directly; where it has lost its context, and where there is none, the URL is
    -- resolved in full.
    abbrev resolved_page : M S (Text × Text)
    unfolding resolve_module_subpage_url fetch_attendance_page
    resolved_page = do
      url ←
          resolve_module_subpage_url p url_ttl attendance_module_name
            attendance_sidebar_link_keyword
      html ← fetch_attendance_page p url
      λ w. (w, ok (url, html))

    abbrev after_direct : Text → World S × Result Text → World S × Result (Text × Text)
    unfolding touch_resolved_url resolve_module_subpage_url fetch_attendance_page
    after_direct url (w, ok html) = (
      touch_resolved_url p url_ttl attendance_module_name attendance_sidebar_link_keyword w,
      ok (url, html),
    )
    after_direct url (w, fail invalid_context) = resolved_page w
    after_direct url (w, fail session_expired) = (w, fail session_expired)
    after_direct url (w, fail workflow) = (w, fail workflow)
    after_direct url (w, fail table_missing) = (w, fail table_missing)
    after_direct url (w, fail no_form) = (w, fail no_form)
    after_direct url (w, fail http_error) = (w, fail http_error)

    unfoldable pub open_page : M S (Text × Text)
    unfolding peek_cached_subpage_url touch_resolved_url resolve_module_subpage_url
        fetch_attendance_page
    open_page w =
        elim (peek_cached_subpage_url p url_ttl attendance_module_name
          attendance_sidebar_link_keyword w) [
            | none ↦ resolved_page w
            | some url ↦ after_direct url (fetch_attendance_page p url w)
          ]

    -- The page, and the result that `parsed_out` receives.
    unfoldable pub fetch_attendance :
        (semester prefer_key : Option Text) → M S (Text × List Scraped)
    unfolding open_page read_hint select_semester select_year select_session save_hint
    fetch_attendance semester prefer_key = do
      (url, html) ← open_page
      (hint_year, hint_session) ← λ w. (let (w', hints) = read_hint prefer_key w in (w', ok hints))
      html ← select_semester url html (semester_or semester)
      year ← select_year url html hint_year
      session ← select_session url year.html (semester_or semester) hint_session
      λ w. (save_hint prefer_key year.value session.value w, ok (session.html, session.result))
