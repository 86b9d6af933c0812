-- ===== src/Examples/Events.antt =====
-- Runs of the event dispatcher (app/services/event_dispatcher_service.py).
use updatednitr.Prelude.{
  ℕ, zero, suc, ◌<◌, ◌≡◌, refl, true, false, none, some, List, [], ◌∷◌, All, lookup, nat_eq, arith,
}
use updatednitr.Dispatcher.Table.{
  Event, attendance_updated, is_eligible, claim_row, claim_events, user_blocked,
}
use updatednitr.Dispatcher.Send.{
  Answer, retry_after, forbidden, failure, send_with_retry, send_loop, transient,
}
use updatednitr.Dispatcher.Cycle.{Setting, dispatch_once, attempt_send}
use updatednitr.Dispatcher.Claims.{claims_exclusive, IsDisjoint}
use updatednitr.Dispatcher.Ends.{IsSettled, rows_of, Listed, head}
use updatednitr.Dispatcher.Delivery.{dispatch_once-settles}
use updatednitr.Dispatcher.Failures.{
  dispatch_cycles, IsOnly, IsWaiting, unformattable_never_fails, failing_sends_end,
}

abbrev event : Event
event = record {
  id = 1;
  user_id = 9;
  event_type = attendance_updated;
  sent = false;
  sent_at = none;
  permanent_failure = false;
  claimed_at = none;
  claimed_by = none;
  attempt_count = 0;
  last_error = none;
}

abbrev sent_event : Event
sent_event = record event { id = 2; sent = true; sent_at = some 50 }

abbrev table : List Event
table = event ∷ sent_event ∷ record event { id = 3 } ∷ []

-- Telegram asks to wait at the first attempt of each send, and then reports an error.
abbrev slow : ℕ → Answer
slow zero = retry_after 5
slow (suc n) = forbidden

abbrev setting : Setting
setting = record {
  now = 1000;
  stale = 300;
  worker = "w1";
  batch = 10;
  max_attempts = 3;
  max_retries = 2;
  telegram_ids = (9, 77) ∷ [];
  format_error = λ evs. none;
  telegram = λ chat evs n. slow n;
}

abbrev broken : Setting
broken = record setting { format_error = λ evs. some "KeyError" }

claims_exclusive_example :
    IsDisjoint
      (claim_events 1000 300 "w1" 2 table).1
      (claim_events 1200 300 "w2" 2 (claim_events 1000 300 "w1" 2 table).0).1
claims_exclusive_example =
    claims_exclusive 1000 1200 300 "w1" "w2" 2 2 table
      ((omega arith, (omega arith, tt)), ((omega arith, tt), (tt, tt))) (omega arith)

first_claimed : Listed (claim_row 1000 "w1" event) (claim_events 1000 300 "w1" 10 (event ∷ [])).1
unfolding claim_events is_eligible
first_claimed = head

dispatch_once-settles_example :
    All
      (IsSettled (claim_row 1000 "w1" event))
      (rows_of (claim_row 1000 "w1" event) (dispatch_once setting (event ∷ [])).0)
dispatch_once-settles_example =
    dispatch_once-settles setting (event ∷ []) (claim_row 1000 "w1" event) (tt, tt) first_claimed

before_second : (j : ℕ) → j < 1 → transient (slow j) ≡ true
before_second zero h = refl
before_second (suc j) h = absurd (omega (arith, h))

event_waits : IsWaiting 0 event
event_waits = record { unsent = refl; lasting = refl; free = refl; attempts = refl }

unformattable_never_fails_example :
    IsOnly event (IsWaiting 50) (dispatch_cycles (λ k. broken) 50 (event ∷ []))
unfolding lookup
unformattable_never_fails_example =
    unformattable_never_fails (λ k. broken) 77 50 event "KeyError" event_waits (λ k. omega arith)
      (λ k. refl) (λ k ev j. refl)

send_blocked : (evs : List Event) → attempt_send setting 77 evs ≡ failure user_blocked
unfolding attempt_send send_with_retry send_loop
send_blocked evs = refl

failing_sends_end_example :
    IsOnly event (λ d. d.permanent_failure ≡ true) (dispatch_cycles (λ k. setting) 4 (event ∷ []))
unfolding lookup
failing_sends_end_example =
    failing_sends_end (λ k. setting) 77 3 4 (λ k. user_blocked) event event_waits (λ k. refl)
      (λ k. omega arith) (λ k. refl) (λ k ev j. send_blocked (ev ∷ [])) (omega arith)
