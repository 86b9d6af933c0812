-- ===== src/Client/Table.antt =====
-- fetch_attendance of app/nitris/client.py: what the page that it returns is.
use mathlib.Core.Path.{subst}
use updatednitr.Prelude.{arith, ◌≡◌, true, Option, none, some, List, Text, ℕ}
use updatednitr.AttendanceHealth.Subject.{Scraped}
use updatednitr.Client.Http.{table_missing, ok, Portal, World}
use updatednitr.Client.Outcomes.{Holds, bind-any, bind-Holds}
use updatednitr.Client.Probes.{Accepted, probe-Holds}
use updatednitr.Client.Attendance.{
  Chosen, has_attendance_table, accepts_session, select_session, fetch_attendance, settle,
  semester_or, ctl_session,
}

-- A page with the attendance table, and what the parser makes of it.
abbrev pub IsTable : {S : Type 0} → Portal S → Text × List Scraped → Type 0
IsTable p (html, records) =
    (has_attendance_table html ≡ true) × (p.parse_attendance_html html ≡ some records)

module _ {S : Type 0} (p : Portal S) where
  accepts_session-IsTable :
      (html : Text) (records : List Scraped)
      → accepts_session p html ≡ some records
      → IsTable p (html, records)
  unfolding accepts_session
  accepts_session-IsTable html records e = ground (arith, e)

  settle-Holds :
      (c : Option (Chosen (List Scraped))) (w : World S)
      → Accepted (accepts_session p) c
      → Holds (λ c. IsTable p (c.html, c.result)) (settle table_missing c w).1
  unfolding Holds
  settle-Holds none w h = tt
  settle-Holds (some c) w h = accepts_session-IsTable c.html c.result h

  select_session-Holds :
      (url html semester : Text) (hint : Option Text) (w : World S)
      → Holds (λ c. IsTable p (c.html, c.result)) (select_session p url html semester hint w).1
  unfolding select_session
  select_session-Holds url html semester hint w = bind-any _ _ _ _ (λ form_state w.
      bind-any _ _ _ _ (λ options w. bind-any _ _ _ _ (λ prioritized_sessions w.
        bind-Holds (Accepted (accepts_session p)) _ _ _ w
          (probe-Holds p (accepts_session p) url html form_state ctl_session _ w)
          (λ c w h. settle-Holds c w h))))

  fetch_attendance-Holds :
      (url_ttl hint_ttl : ℕ) (semester prefer_key : Option Text) (w : World S)
      → Holds (IsTable p) (fetch_attendance p url_ttl hint_ttl semester prefer_key w).1
  unfolding fetch_attendance Holds
  fetch_attendance-Holds url_ttl hint_ttl semester prefer_key w = bind-any _ _ _ _ (λ page w.
      bind-any _ _ _ _ (λ hints w. bind-any _ _ _ _ (λ html w. bind-any _ _ _ _ (λ year w.
        bind-Holds (λ c. IsTable p (c.html, c.result)) _ _ _ w
          (select_session-Holds page.0 year.html (semester_or p semester) hints.1 w)
          (λ session w h. h)))))

  -- What fetch_attendance returns is a page with the attendance table, and the result that it hands to
  -- the caller is what the parser makes of that page.
  pub fetch_attendance-IsTable :
      (url_ttl hint_ttl : ℕ) (semester prefer_key : Option Text) (w : World S) (html : Text)
      (records : List Scraped)
      → (fetch_attendance p url_ttl hint_ttl semester prefer_key w).1 ≡ ok (html, records)
      → (has_attendance_table html ≡ true) × (p.parse_attendance_html html ≡ some records)
  unfolding Holds
  fetch_attendance-IsTable url_ttl hint_ttl semester prefer_key w html records e =
      subst (Holds (IsTable p)) e (fetch_attendance-Holds url_ttl hint_ttl semester prefer_key w)
