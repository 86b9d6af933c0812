-- ===== src/Examples/Portals.antt =====
-- Runs of the attendance workflow (app/nitris/client.py) against a small portal.
use mathlib.Core.List.{Perm, mem-cons_self}
use updatednitr.Prelude.{
  ℕ, ◌≡◌, ◌+◌, refl, true, some, none, List, [], ◌∷◌, ◌++◌, codes, Text, text_eq, lookup, insert,
  erase, contains, has_text, if◌then◌else◌, ◌==◌,
}
use updatednitr.AttendanceHealth.Subject.{Scraped}
use updatednitr.Client.Http.{
  ok, Portal, World, Response, ◌>>=◌, get, post, form_fields, is_login_page, is_error_page,
}
use updatednitr.Client.Options.{
  Choice, prioritize, get_prioritized_sessions, get_sorted_academic_years, pick_option, sort_by_key,
  insert_by_key, latest_year, first_year,
}
use updatednitr.Client.Orders.{get_prioritized_sessions-Perm}
use updatednitr.Client.Payload.{lookup-payload}
use updatednitr.Client.Postback.{payload, submit_postback, judge, fetch_attendance_page}
use updatednitr.Client.Resolve.{
  peek_cached_subpage_url, resolve_module_subpage_url, full_resolve, cache_key,
}
use updatednitr.Client.Probes.{Probes, probe-Probes}
use updatednitr.Client.Hints.{is_ok, select_session-finds}
use updatednitr.Client.Table.{fetch_attendance-IsTable}
use updatednitr.Client.Attendance.{
  Chosen, has_attendance_table, accepts_session, probe, option_page, select_session,
  fetch_attendance, ctl_session, ctl_academic_year, semester_or, open_page, read_hint,
  select_semester, select_year, save_hint, has_session_dropdown,
}

abbrev table_page : Text
table_page =
    codes
      "name=\"ctl00$ctl00$ctl00$ContentPlaceHolder2$ContentPlaceHolder1$mainContent$ddlSession\""
    ++ codes "id=\"ContentPlaceHolder2_ContentPlaceHolder1_mainContent_gvSubjects\""

abbrev answer : Response
answer = record { status_code = 200; location = []; text = table_page }

abbrev course : List Scraped
course = (("subject_code", codes "EE2001") ∷ []) ∷ []

abbrev sessions : List Choice
sessions =
    (codes "3", codes "Spring 2026")
    ∷ (codes "1", codes "Autumn 2025")
    ∷ (codes "2", codes "Autumn 2026")
    ∷ []

abbrev years : List Choice
years =
    (codes "0", codes "--Select--")
    ∷ (codes "26", codes "2026-27")
    ∷ (codes "25", codes "2025-26")
    ∷ []

abbrev dropdown : Text → List Choice
dropdown name =
    if name == ctl_session
    then sessions
    else if name == ctl_academic_year
    then years
    else (codes "A", codes "Autumn") ∷ []

abbrev portal : Portal ℕ
portal = record {
  time = λ s. s;
  get = λ follow url s. (s + 1, some answer);
  post = λ url fields s. (s + 1, some answer);
  extract_form_fields = λ html. some [];
  extract_dropdown_options = λ html name. dropdown name;
  parse_attendance_html = λ html. some course;
  find_launcher_by_module_name = λ html name. some (codes "launcher");
  find_subpage_link = λ html keyword. some (codes "page");
  absolute = λ href. href;
  month = 9;
  current_start_year = 2026;
}

abbrev fresh : World ℕ
fresh = record { server = 0; requests = 0; urls = []; hints = [] }

get_prioritized_sessions-Perm_example :
    Perm sessions
      (prioritize (get_prioritized_sessions (codes "Autumn") sessions) (some (codes "3")))
get_prioritized_sessions-Perm_example =
    get_prioritized_sessions-Perm (codes "Autumn") sessions (some (codes "3"))

get_prioritized_sessions_order :
    prioritize (get_prioritized_sessions (codes "Autumn") sessions) (some (codes "3"))
    ≡ (codes "3", codes "Spring 2026")
      ∷ (codes "2", codes "Autumn 2026")
      ∷ (codes "1", codes "Autumn 2025")
      ∷ []
unfolding get_prioritized_sessions prioritize has_text
get_prioritized_sessions_order = refl

lookup-payload_example :
    lookup ctl_session (
      payload
        ((ctl_session, codes "0") ∷ (codes "__VIEWSTATE", codes "x") ∷ [])
        ctl_session
        ((ctl_session, codes "2") ∷ []))
    ≡ some (codes "2")
unfolding lookup
lookup-payload_example =
    lookup-payload ((ctl_session, codes "0") ∷ (codes "__VIEWSTATE", codes "x") ∷ [])
      ((ctl_session, codes "2") ∷ []) ctl_session ctl_session (refl, tt)

abbrev second : Chosen (List Scraped)
second = record { value = codes "3"; html = table_page; result = course }

abbrev asked : World ℕ
asked = record { server = 1; requests = 1; urls = []; hints = [] }

probe_settles :
    probe portal (accepts_session portal) (codes "page") [] [] ctl_session sessions fresh
    ≡ (asked, ok (some second))
unfolding probe option_page submit_postback accepts_session judge ◌>>=◌ lookup contains has_text
probe_settles = refl

probe-Probes_example :
    Probes portal
      (accepts_session portal)
      (codes "page")
      []
      []
      ctl_session
      sessions
      fresh
      asked
      (some second)
probe-Probes_example =
    probe-Probes portal (accepts_session portal) (codes "page") [] [] ctl_session sessions fresh
      asked (some second) probe_settles

select_session-finds_example :
    is_ok (select_session portal (codes "page") [] (codes "Autumn") (some (codes "9")) fresh).1
    ≡ true
unfolding option_page submit_postback accepts_session judge ◌>>=◌ lookup contains has_text
select_session-finds_example =
    select_session-finds portal (codes "page") [] (codes "Autumn") (some (codes "9")) []
      (codes "3", codes "Spring 2026") refl mem-cons_self (λ w. refl) (λ x m w. refl) fresh

fetch_attendance_runs :
    (fetch_attendance portal 600 2700 none (some (codes "123EE0001")) fresh).1
    ≡ ok (table_page, course)
unfolding fetch_attendance open_page read_hint select_semester select_year select_session save_hint
    peek_cached_subpage_url resolve_module_subpage_url full_resolve fetch_attendance_page
    pick_option get_sorted_academic_years get_prioritized_sessions prioritize probe option_page
    submit_postback accepts_session has_attendance_table has_session_dropdown judge get post ◌>>=◌
    lookup insert erase contains has_text semester_or sort_by_key insert_by_key latest_year
    first_year form_fields is_login_page is_error_page cache_key
fetch_attendance_runs = refl

fetch_attendance-IsTable_example :
    (has_attendance_table table_page ≡ true)
    × (portal.parse_attendance_html table_page ≡ some course)
fetch_attendance-IsTable_example =
    fetch_attendance-IsTable portal 600 2700 none (some (codes "123EE0001")) fresh table_page course
      fetch_attendance_runs
