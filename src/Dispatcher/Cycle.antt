-- ===== src/Dispatcher/Cycle.antt =====
-- One cycle of the dispatcher of app/services/event_dispatcher_service.py: _dispatch_once and the
-- functions that it calls. Every transaction is taken to commit; a failure to format or to send is
-- in the model. `now` is the time of the cycle, the same for all its statements.
use updatednitr.Prelude.{
  ℕ, suc, ◌+◌, String, Bool, true, false, ◌&&◌, Option, none, some, List, [], ◌∷◌, ◌++◌, ltb, leb,
  length, all, if◌then◌else◌, ◌==◌, nat_eq, Dict, lookup,
}
use updatednitr.Dispatcher.Table.{
  EventType, new_message_received, message_updated, new_subject_added, attendance_updated,
  new_absence_detected, other_type, SendError, user_blocked, user_deactivated, user_blocked_the_bot,
  user_account_deactivated, orphaned_event, exhausted_attempts, retryable, unexpected, Event,
  claim_events, mark_event_sent, mark_event_permanent_failure, release_event_claim,
}
use updatednitr.Dispatcher.Send.{Answer, Sent, success, failure, raised, send_with_retry}

-- What the cycle depends on: the tunables, the table `users`, whether a message can be formatted, and
-- Telegram, which answers each attempt to send the message of some events to a chat.
pub record Setting : Type 0 where
  pub now : ℕ
  pub stale : ℕ
  pub worker : String
  pub batch : ℕ
  pub max_attempts : ℕ
  pub max_retries : ℕ
  pub telegram_ids : Dict ℕ ℕ
  pub format_error : List Event → Option String
  pub telegram : ℕ → List Event → ℕ → Answer

abbrev pub is_message : EventType → Bool
is_message new_message_received = true
is_message message_updated = true
is_message new_subject_added = false
is_message attendance_updated = false
is_message new_absence_detected = false
is_message other_type = false

-- _handle_send_failure, which always returns False.
unfoldable pub handle_send_failure : Setting → Event → SendError → List Event → List Event
unfolding mark_event_permanent_failure release_event_claim
handle_send_failure s ev user_blocked t =
    mark_event_permanent_failure s.now ev.id user_blocked_the_bot t
handle_send_failure s ev user_deactivated t =
    mark_event_permanent_failure s.now ev.id user_account_deactivated t
handle_send_failure s ev err t =
    if leb s.max_attempts ev.attempt_count
    then mark_event_permanent_failure s.now ev.id (exhausted_attempts err) t
    else release_event_claim ev.id (some (retryable err)) t

-- Format and send; an exception of either is caught by the callers.
unfoldable pub attempt_send : Setting → ℕ → List Event → Sent
attempt_send s chat evs = elim (s.format_error evs) [
  | some m ↦ raised m
  | none ↦ send_with_retry s.max_retries (s.telegram chat evs)
]

unfoldable pub after_single : Setting → Event → Sent → List Event → List Event × Bool
unfolding handle_send_failure mark_event_sent release_event_claim
after_single s ev success t = (mark_event_sent s.now ev.id t, true)
after_single s ev (failure err) t = (handle_send_failure s ev err t, false)
after_single s ev (raised m) t = (release_event_claim ev.id (some (unexpected m)) t, false)

unfoldable pub dispatch_single_event : Setting → ℕ → Event → List Event → List Event × Bool
unfolding after_single
dispatch_single_event s chat ev t = after_single s ev (attempt_send s chat (ev ∷ [])) t

-- One transition for each event of the group.
unfoldable pub for_each : (Event → List Event → List Event) → List Event → List Event → List Event
for_each f [] t = t
for_each f (ev ∷ evs) t = for_each f evs (f ev t)

unfoldable pub after_digest : Setting → List Event → Sent → List Event → List Event × Bool
after_digest s group success t = (for_each (λ ev. mark_event_sent s.now ev.id) group t, true)
after_digest s group (failure err) t =
    (for_each (λ ev. handle_send_failure s ev err) group t, false)
after_digest s group (raised m) t =
    (for_each (λ ev. release_event_claim ev.id (some (unexpected m))) group t, false)

unfoldable pub send_message_digest : Setting → ℕ → List Event → List Event → List Event × Bool
unfolding after_digest
send_message_digest s chat group t = after_digest s group (attempt_send s chat group) t

unfoldable pub dispatch_each : Setting → ℕ → List Event → List Event → List Event × ℕ
dispatch_each s chat [] t = (t, 0)
dispatch_each s chat (ev ∷ evs) t =
    let (t', delivered) = dispatch_single_event s chat ev t in
    let (t'', n) = dispatch_each s chat evs t' in (t'', if delivered then suc n else n)

abbrev pub is_digest : List Event → Bool
is_digest group = ltb 1 (length group) && all (λ (ev : Event). is_message ev.event_type) group

-- The body of the loop over the groups.
unfoldable pub dispatch_group : Setting → ℕ → List Event → List Event → List Event × ℕ
dispatch_group s user_id group t = elim (lookup user_id s.telegram_ids) [
  | none ↦ (for_each (λ ev. mark_event_permanent_failure s.now ev.id orphaned_event) group t, 0)
  | some chat ↦
      if is_digest group
      then (let (t', delivered) = send_message_digest s chat group t in
          (t', if delivered then length group else 0))
      else dispatch_each s chat group t
]

-- groups.setdefault(ev["user_id"], []).append(ev)
unfoldable pub add_to_group : Event → Dict ℕ (List Event) → Dict ℕ (List Event)
add_to_group ev [] = (ev.user_id, ev ∷ []) ∷ []
add_to_group ev ((u, group) ∷ groups) =
    if u == ev.user_id then (u, group ++ ev ∷ []) ∷ groups else (u, group) ∷ add_to_group ev groups

unfoldable pub group_by_user : List Event → Dict ℕ (List Event) → Dict ℕ (List Event)
group_by_user [] groups = groups
group_by_user (ev ∷ evs) groups = group_by_user evs (add_to_group ev groups)

unfoldable pub dispatch_groups : Setting → Dict ℕ (List Event) → List Event → List Event × ℕ
dispatch_groups s [] t = (t, 0)
dispatch_groups s ((u, group) ∷ groups) t =
    let (t', n) = dispatch_group s u group t in
    let (t'', m) = dispatch_groups s groups t' in (t'', n + m)

unfoldable pub dispatch_once : Setting → List Event → List Event × ℕ
dispatch_once s t =
    let (t', claimed) = claim_events s.now s.stale s.worker s.batch t in
    dispatch_groups s (group_by_user claimed []) t'
