-- ===== src/Dispatcher/Table.antt =====
-- The table `events` and its updates in app/services/event_dispatcher_service.py. A statement is
-- atomic, so it is a function on the table, whose rows stand in the order of their ids. Texts of
-- errors are values of `Note`; their cut to 1000 characters is left out.
use updatednitr.Prelude.{
  ℕ, suc, ◌+◌, ◌-◌, ◌*◌, String, Bool, true, false, not, ◌&&◌, Option, none, some, List, [], ◌∷◌,
  ltb, if◌then◌else◌, ◌==◌, nat_eq,
}

pub data EventType : Type 0 where
  new_subject_added attendance_updated new_absence_detected new_message_received : EventType
  message_updated other_type : EventType

-- What _send_with_retry reports.
pub data SendError : Type 0 where
  user_blocked user_deactivated send_exhausted_retries : SendError
  floodwait_exhausted : (retry_after : ℕ) → SendError
  telegram_api_error : String → SendError

pub data Note : Type 0 where
  user_blocked_the_bot user_account_deactivated orphaned_event : Note
  exhausted_attempts retryable : SendError → Note
  unexpected : String → Note
  stale_claim_reaped : Note → Note
  stale_claim_reaped_only : Note

pub record Event : Type 0 where
  pub id : ℕ
  pub user_id : ℕ
  pub event_type : EventType
  pub sent : Bool
  pub sent_at : Option ℕ
  pub permanent_failure : Bool
  pub claimed_at : Option ℕ
  pub claimed_by : Option String
  pub attempt_count : ℕ
  pub last_error : Option Note

-- claimed_at IS NULL OR claimed_at < NOW() - stale_secs
abbrev pub is_free : (now stale : ℕ) → Option ℕ → Bool
is_free now stale none = true
is_free now stale (some t) = ltb (t + stale) now

unfoldable pub is_eligible : (now stale : ℕ) → Event → Bool
is_eligible now stale e = not e.sent && not e.permanent_failure && is_free now stale e.claimed_at

abbrev pub claim_row : ℕ → String → Event → Event
claim_row now worker e = record e { claimed_at = some now; claimed_by = some worker }

-- The claim: the first `batch` eligible rows by id, and the table after.
unfoldable pub claim_events :
    (now stale : ℕ) → String → (batch : ℕ) → List Event → List Event × List Event
unfolding is_eligible
claim_events now stale worker batch [] = ([], [])
claim_events now stale worker batch (e ∷ es) =
    let takes = is_eligible now stale e && ltb 0 batch in
    let (rest, got) = claim_events now stale worker (if takes then batch - 1 else batch) es in
    if takes then (claim_row now worker e ∷ rest, claim_row now worker e ∷ got) else (e ∷ rest, got)

-- UPDATE events SET … WHERE id = :id
unfoldable pub update_row : ℕ → (Event → Event) → List Event → List Event
update_row id f [] = []
update_row id f (e ∷ es) = (if e.id == id then f e else e) ∷ update_row id f es

abbrev pub sent_row : ℕ → Event → Event
sent_row now e = record e {
  sent = true;
  sent_at = some now;
  claimed_at = none;
  claimed_by = none;
  last_error = none;
}

abbrev pub failed_row : ℕ → Note → Event → Event
failed_row now note e = record e {
  sent = true;
  sent_at = some now;
  permanent_failure = true;
  claimed_at = none;
  claimed_by = none;
  last_error = some note;
}

abbrev pub released_row : Option Note → Event → Event
released_row note e = record e {
  claimed_at = none;
  claimed_by = none;
  attempt_count = e.attempt_count + 1;
  last_error = note;
}

unfoldable pub mark_event_sent : ℕ → ℕ → List Event → List Event
mark_event_sent now id = update_row id (sent_row now)

unfoldable pub mark_event_permanent_failure : ℕ → ℕ → Note → List Event → List Event
mark_event_permanent_failure now id note = update_row id (failed_row now note)

unfoldable pub release_event_claim : ℕ → Option Note → List Event → List Event
release_event_claim id note = update_row id (released_row note)

-- The reaper: claims older than twice the stale time.
unfoldable pub is_stale : (now stale : ℕ) → Event → Bool
is_stale now stale e =
    not e.sent
    && not e.permanent_failure
    && (elim e.claimed_at [ none ↦ false | some t ↦ ltb (t + stale * 2) now ])

abbrev pub reaped_row : Event → Event
reaped_row e = record e {
  claimed_at = none;
  claimed_by = none;
  last_error = elim e.last_error [
    | none ↦ some stale_claim_reaped_only
    | some n ↦ some (stale_claim_reaped n)
  ];
}

unfoldable pub reap_stale_claims : (now stale : ℕ) → List Event → List Event × ℕ
unfolding is_stale
reap_stale_claims now stale [] = ([], 0)
reap_stale_claims now stale (e ∷ es) =
    let (rest, n) = reap_stale_claims now stale es in
    if is_stale now stale e then (reaped_row e ∷ rest, suc n) else (e ∷ rest, n)
