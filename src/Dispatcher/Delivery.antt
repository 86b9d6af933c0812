-- ===== src/Dispatcher/Delivery.antt =====
-- What a cycle of app/services/event_dispatcher_service.py leaves of each event that it claimed.
use updatednitr.Prelude.{
  ℕ, ◌<◌, ◌≡◌, refl, inl, inr, String, Bool, true, false, Option, some, List, [], ◌∷◌, arith, leb,
  ltb, beq_refl, ◌-◌, ◌&&◌, if◌then◌else◌, nat_eq, All, length, lookup, Dict, Bool-cases,
  Option-cases,
}
use updatednitr.Dispatcher.Table.{
  Event, SendError, update_row, sent_row, failed_row, released_row, mark_event_sent,
  mark_event_permanent_failure, release_event_claim, claim_events, claim_row, is_eligible, Note,
  user_blocked, user_deactivated, retryable, unexpected, orphaned_event, user_blocked_the_bot,
  user_account_deactivated, exhausted_attempts,
}
use updatednitr.Dispatcher.Send.{Sent, success, failure, raised}
use updatednitr.Dispatcher.Cycle.{
  Setting, handle_send_failure, after_single, dispatch_single_event, for_each, after_digest,
  send_message_digest, dispatch_each, dispatch_group, group_by_user, dispatch_groups, dispatch_once,
  attempt_send, is_digest,
}
use updatednitr.Dispatcher.Claims.{
  IsAscending, IsAbove, claim_events-IsAbove, claim_events-taken, claim_events-passed,
}
use updatednitr.Dispatcher.Ends.{
  IsSettled, rows_of, SettlesIn-rows, sent_row-IsEnd, failed_row-IsEnd, released_row-IsEnd, Ends,
  none_left, Ends-append, Ends-one, Ends-settles, Listed, head, tail, IsHeld, times,
}
use mathlib.Core.Path.{subst}
use updatednitr.Dispatcher.Groups.{flatten, group_by_user-all, group_by_user-times}

-- The code's transitions are of this kind.
handle_send_failure-Ends :
    (s : Setting) (ev : Event) (err : SendError) (t : List Event)
    → Ends (ev ∷ []) t (handle_send_failure s ev err t)
unfolding handle_send_failure mark_event_permanent_failure release_event_claim
handle_send_failure-Ends s ev user_blocked t =
    Ends-one ev t (failed_row s.now user_blocked_the_bot)
      (failed_row-IsEnd s.now user_blocked_the_bot)
handle_send_failure-Ends s ev user_deactivated t =
    Ends-one ev t (failed_row s.now user_account_deactivated)
      (failed_row-IsEnd s.now user_account_deactivated)
handle_send_failure-Ends s ev err t = go (leb s.max_attempts ev.attempt_count)
  where
    go :
        (b : Bool)
        → Ends (ev ∷ []) t (
            if b
            then update_row ev.id (failed_row s.now (exhausted_attempts err)) t
            else update_row ev.id (released_row (some (retryable err))) t)
    go true =
        Ends-one ev t (failed_row s.now (exhausted_attempts err))
          (failed_row-IsEnd s.now (exhausted_attempts err))
    go false =
        Ends-one ev t (released_row (some (retryable err)))
          (released_row-IsEnd (some (retryable err)))

mark_event_sent-Ends :
    (now : ℕ) (ev : Event) (t : List Event) → Ends (ev ∷ []) t (mark_event_sent now ev.id t)
unfolding mark_event_sent
mark_event_sent-Ends now ev t = Ends-one ev t (sent_row now) (sent_row-IsEnd now)

permanent_failure-Ends :
    (now : ℕ) (note : Note) (ev : Event) (t : List Event)
    → Ends (ev ∷ []) t (mark_event_permanent_failure now ev.id note t)
unfolding mark_event_permanent_failure
permanent_failure-Ends now note ev t =
    Ends-one ev t (failed_row now note) (failed_row-IsEnd now note)

release-Ends :
    (err : Option Note) (ev : Event) (t : List Event)
    → Ends (ev ∷ []) t (release_event_claim ev.id err t)
unfolding release_event_claim
release-Ends err ev t = Ends-one ev t (released_row err) (released_row-IsEnd err)

after_single-Ends :
    (s : Setting) (ev : Event) (r : Sent) (t : List Event)
    → Ends (ev ∷ []) t (after_single s ev r t).0
unfolding after_single
after_single-Ends s ev success t = mark_event_sent-Ends s.now ev t
after_single-Ends s ev (failure err) t = handle_send_failure-Ends s ev err t
after_single-Ends s ev (raised m) t = release-Ends (some (unexpected m)) ev t

for_each-Ends :
    (f : Event → List Event → List Event) (evs t : List Event)
    → ((ev : Event) (t : List Event) → Ends (ev ∷ []) t (f ev t))
    → Ends evs t (for_each f evs t)
unfolding for_each
for_each-Ends f [] t h = none_left t
for_each-Ends f (ev ∷ evs) t h = Ends-append (h ev t) (for_each-Ends f evs (f ev t) h)

after_digest-Ends :
    (s : Setting) (group : List Event) (r : Sent) (t : List Event)
    → Ends group t (after_digest s group r t).0
unfolding after_digest
after_digest-Ends s group success t =
    for_each-Ends (λ ev. mark_event_sent s.now ev.id) group t (mark_event_sent-Ends s.now)
after_digest-Ends s group (failure err) t =
    for_each-Ends (λ ev. handle_send_failure s ev err) group t
      (λ ev. handle_send_failure-Ends s ev err)
after_digest-Ends s group (raised m) t =
    for_each-Ends (λ ev. release_event_claim ev.id (some (unexpected m))) group t
      (release-Ends (some (unexpected m)))

dispatch_each-Ends :
    (s : Setting) (chat : ℕ) (evs t : List Event) → Ends evs t (dispatch_each s chat evs t).0
unfolding dispatch_each dispatch_single_event
dispatch_each-Ends s chat [] t = none_left t
dispatch_each-Ends s chat (ev ∷ evs) t =
    let r : Sent = attempt_send s chat (ev ∷ []) in
    Ends-append (after_single-Ends s ev r t)
      (dispatch_each-Ends s chat evs (after_single s ev r t).0)

dispatch_group-Ends :
    (s : Setting) (user_id : ℕ) (group t : List Event)
    → Ends group t (dispatch_group s user_id group t).0
unfolding dispatch_group send_message_digest
dispatch_group-Ends s user_id group t = elim (Option-cases (lookup user_id s.telegram_ids)) [
  | inl e ↦
      rw (e, dispatch_group)
        (for_each-Ends (λ ev. mark_event_permanent_failure s.now ev.id orphaned_event) group t
          (permanent_failure-Ends s.now orphaned_event))
  | inr (chat, e) ↦ rw (e, dispatch_group) (to chat)
]
  where
    to :
        (chat : ℕ)
        → Ends group t
            (if is_digest group
              then (let (t', delivered) = send_message_digest s chat group t in
                  (t', if delivered then length group else 0))
              else dispatch_each s chat group t).0
    to chat = elim (Bool-cases (is_digest group)) [
      | inl d ↦ rw (d, dispatch_group) (after_digest-Ends s group (attempt_send s chat group) t)
      | inr d ↦ rw (d, dispatch_group) (dispatch_each-Ends s chat group t)
    ]

dispatch_groups-Ends :
    (s : Setting) (groups : Dict ℕ (List Event)) (t : List Event)
    → Ends (flatten groups) t (dispatch_groups s groups t).0
unfolding dispatch_groups
dispatch_groups-Ends s [] t = none_left t
dispatch_groups-Ends s ((u, group) ∷ groups) t =
    Ends-append (dispatch_group-Ends s u group t)
      (dispatch_groups-Ends s groups (dispatch_group s u group t).0)

above-Listed : (n : ℕ) (c : Event) (es : List Event) → IsAbove n es → Listed c es → n < c.id
above-Listed n c [] a m = elim m [ ]
above-Listed n c (e ∷ es) a head = a.0
above-Listed n c (e ∷ es) a (tail m) = above-Listed n c es a.1 m

above-IsHeld : (n : ℕ) (c : Event) (es : List Event) → IsAbove n es → c.id ≡ n → All (IsHeld c) es
above-IsHeld n c [] a q = tt
above-IsHeld n c (e ∷ es) a q = ((λ p. omega (arith, p, q, a.0)), above-IsHeld n c es a.1 q)

-- After the claim, the row of a claimed event has its attempt count.
claim_row-IsHeld :
    (c : Event) (now : ℕ) (worker : String) (e : Event) (t got : List Event)
    → IsAbove e.id t
    → IsAbove e.id got
    → (Listed c got → All (IsHeld c) t)
    → Listed c (claim_row now worker e ∷ got)
    → All (IsHeld c) (claim_row now worker e ∷ t)
claim_row-IsHeld c now worker e t got a b h head =
    ((λ _. omega arith), above-IsHeld e.id c t a refl)
claim_row-IsHeld c now worker e t got a b h (tail m) =
    ((λ p. omega (arith, p, above-Listed e.id c got b m)), h m)

claim_events-IsHeld :
    (c : Event) (now stale : ℕ) (worker : String) (batch : ℕ) (t : List Event)
    → IsAscending t
    → Listed c (claim_events now stale worker batch t).1
    → All (IsHeld c) (claim_events now stale worker batch t).0
unfolding claim_events
claim_events-IsHeld c now stale worker batch [] a m = tt
claim_events-IsHeld c now stale worker batch (e ∷ es) a m =
    let above = λ (b : ℕ). claim_events-IsAbove e.id now stale worker b es a.0 in
    let rest = λ (b : ℕ). claim_events-IsHeld c now stale worker b es a.1 in
    elim (Bool-cases (is_eligible now stale e && ltb 0 batch)) [
      | inl h ↦
          let q = claim_events-taken now stale worker batch e es h in
          rw q (
            claim_row-IsHeld c now worker e (claim_events now stale worker (batch - 1) es).0
              (claim_events now stale worker (batch - 1) es).1 (above (batch - 1)).0
              (above (batch - 1)).1 (rest (batch - 1))
              (subst (λ (r : List Event × List Event). Listed c r.1) q m))
      | inr h ↦
          let q = claim_events-passed now stale worker batch e es h in
          let l = subst (λ (r : List Event × List Event). Listed c r.1) q m in
          rw q (
            (λ p. omega (
              arith,
              p,
              above-Listed e.id c (claim_events now stale worker batch es).1 (above batch).1 l,
            )),
            rest batch l,
          )
    ]

claim_events-IsAscending :
    (now stale : ℕ) (worker : String) (batch : ℕ) (t : List Event)
    → IsAscending t
    → IsAscending (claim_events now stale worker batch t).1
unfolding claim_events
claim_events-IsAscending now stale worker batch [] a = tt
claim_events-IsAscending now stale worker batch (e ∷ es) a =
    elim (Bool-cases (is_eligible now stale e && ltb 0 batch)) [
      | inl h ↦ rw (claim_events-taken now stale worker batch e es h) (
        (claim_events-IsAbove e.id now stale worker (batch - 1) es a.0).1,
        claim_events-IsAscending now stale worker (batch - 1) es a.1,
      )
      | inr h ↦
          rw (claim_events-passed now stale worker batch e es h)
            (claim_events-IsAscending now stale worker batch es a.1)
    ]

above-times : (n : ℕ) (es : List Event) → IsAbove n es → times n es ≡ 0
unfolding times
above-times n [] h = refl
above-times n (e ∷ es) h = ground (arith, h.0, above-times n es h.1)

no_times : (id : ℕ) → times id [] ≡ 0
unfolding times
no_times id = refl

ascending-times : (c : Event) (es : List Event) → IsAscending es → Listed c es → times c.id es ≡ 1
unfolding times
ascending-times c [] a m = elim m [ ]
ascending-times c (e ∷ es) a head = ground (arith, above-times c.id es a.0, beq_refl c.id)
ascending-times c (e ∷ es) a (tail m) =
    ground (arith, ascending-times c es a.1 m, above-Listed e.id c es a.0 m)

-- A cycle leaves no claim behind, whatever the answers of Telegram and the errors in formatting: the
-- row of each event that it claimed is free again, and is sent (or failed for good) or has exactly one
-- attempt more. The rows stand in the order of their ids.
pub dispatch_once-settles :
    (s : Setting) (t : List Event) (c : Event)
    → IsAscending t
    → Listed c (claim_events s.now s.stale s.worker s.batch t).1
    → All (IsSettled c) (rows_of c (dispatch_once s t).0)
unfolding dispatch_once
dispatch_once-settles s t c a m =
    let claimed : List Event = (claim_events s.now s.stale s.worker s.batch t).1 in
    let t' : List Event = (claim_events s.now s.stale s.worker s.batch t).0 in
    let ascending = claim_events-IsAscending s.now s.stale s.worker s.batch t a in
    let once : times c.id (flatten (group_by_user claimed [])) ≡ 1 = ground (
      arith,
      group_by_user-times c.id claimed [],
      ascending-times c claimed ascending m,
      no_times c.id,
    ) in
    SettlesIn-rows c (dispatch_once s t).0 (
      Ends-settles c (dispatch_groups-Ends s (group_by_user claimed []) t')
        (group_by_user-all c claimed [] m) once
        (claim_events-IsHeld c s.now s.stale s.worker s.batch t a m))
