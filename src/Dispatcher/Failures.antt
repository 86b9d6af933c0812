-- ===== src/Dispatcher/Failures.antt =====
-- How long app/services/event_dispatcher_service.py tries an event, by the cause of its failures.
use updatednitr.Prelude.{
  ℕ, zero, suc, ◌≤◌, ◌<◌, ◌≡◌, refl, ap, ◌∙◌, ◌⊎◌, inl, inr, String, Bool, true, false, none, some,
  List, [], ◌∷◌, arith, leb, lookup, nat_eq, if◌then◌else◌, beq_refl,
}
use updatednitr.Dispatcher.Table.{
  Event, SendError, claim_events, update_row, released_row, failed_row, unexpected,
  release_event_claim, mark_event_permanent_failure, is_eligible, claim_row, exhausted_attempts,
  retryable, user_blocked, user_deactivated, user_blocked_the_bot, user_account_deactivated,
}
use updatednitr.Dispatcher.Send.{failure}
use updatednitr.Dispatcher.Cycle.{
  Setting, handle_send_failure, after_single, dispatch_single_event, dispatch_each, dispatch_group,
  add_to_group, group_by_user, dispatch_groups, dispatch_once, attempt_send,
}

-- The cycles on a table, each with its own setting.
unfoldable pub dispatch_cycles : (ℕ → Setting) → ℕ → List Event → List Event
dispatch_cycles settings zero t = t
dispatch_cycles settings (suc n) t = (dispatch_once (settings n) (dispatch_cycles settings n t)).0

-- An event that waits to be sent, with its attempts.
pub record IsWaiting (n : ℕ) (e : Event) : Type 0 where
  pub unsent : e.sent ≡ false
  pub lasting : e.permanent_failure ≡ false
  pub free : e.claimed_at ≡ none
  pub attempts : e.attempt_count ≡ n

-- What a cycle does to a table of one waiting event of a user with a chat.
cycle_one :
    (s : Setting) (chat n : ℕ) (e : Event)
    → IsWaiting n e
    → 0 < s.batch
    → lookup e.user_id s.telegram_ids ≡ some chat
    → (dispatch_once s (e ∷ [])).0
      ≡ (after_single s
          (claim_row s.now s.worker e)
          (attempt_send s chat (claim_row s.now s.worker e ∷ []))
          (claim_row s.now s.worker e ∷ [])).0
unfolding dispatch_once claim_events is_eligible group_by_user add_to_group dispatch_groups
    dispatch_group dispatch_each dispatch_single_event
cycle_one s chat n e w b q = ground (arith, w.unsent, w.lasting, w.free, q, b)

-- A table of one row, with the id and the user of an event, and with the property.
abbrev pub IsOnly : Event → (Event → Type 0) → List Event → Type 0
IsOnly e P t = (d : Event) × (t ≡ d ∷ []) × (d.user_id ≡ e.user_id) × (d.id ≡ e.id) × P d

raised_one :
    (s : Setting) (chat n : ℕ) (e : Event) (m : String)
    → IsWaiting n e
    → 0 < s.batch
    → lookup e.user_id s.telegram_ids ≡ some chat
    → ((ev : Event) → ev.id ≡ e.id → s.format_error (ev ∷ []) ≡ some m)
    → IsOnly e (IsWaiting (suc n)) (dispatch_once s (e ∷ [])).0
unfolding after_single attempt_send release_event_claim update_row
raised_one s chat n e m w b q f = (
  released_row (some (unexpected m)) (claim_row s.now s.worker e),
  cycle_one s chat n e w b q ∙ ground (arith, f (claim_row s.now s.worker e) refl),
  refl,
  refl,
  record {
    unsent = w.unsent;
    lasting = w.lasting;
    free = refl;
    attempts = omega (arith, w.attempts);
  },
)

-- An event that is alone in the table and cannot be formatted is tried for ever: after any number of
-- cycles it is the row of the table, waits to be sent, and has as many more attempts, whatever
-- max_attempts is. Every cycle has room for it, and its user has a chat.
pub unformattable_never_fails :
    (settings : ℕ → Setting) (chat n : ℕ) (e : Event) (m : String)
    → IsWaiting 0 e
    → ((k : ℕ) → 0 < (settings k).batch)
    → ((k : ℕ) → lookup e.user_id (settings k).telegram_ids ≡ some chat)
    → ((k : ℕ) (ev : Event) → ev.id ≡ e.id → (settings k).format_error (ev ∷ []) ≡ some m)
    → IsOnly e (IsWaiting n) (dispatch_cycles settings n (e ∷ []))
unfolding dispatch_cycles
unformattable_never_fails settings chat zero e m w b q f = (e, refl, refl, refl, w)
unformattable_never_fails settings chat (suc n) e m w b q f =
    let (e', p, u, i, w') = unformattable_never_fails settings chat n e m w b q f in
    let (d, p', u', i', w'') =
      raised_one (settings n) chat n e' m w' (b n)
        (ap (λ x. lookup x (settings n).telegram_ids) u ∙ q n) (λ ev j. f n ev (j ∙ i)) in
    (d, ap (λ t. (dispatch_once (settings n) t).0) p ∙ p', u' ∙ u, i' ∙ i, w'')

-- Permanently failed, or still waiting with n attempts, at most the limit.
abbrev pub IsRetried : (max n : ℕ) → Event → Type 0
IsRetried max n e = (e.permanent_failure ≡ true) ⊎ (IsWaiting n e × n ≤ max)

failed_one :
    (s : Setting) (max n : ℕ) (e : Event) (err : SendError)
    → IsWaiting n e
    → n ≤ max
    → s.max_attempts ≡ max
    → IsOnly e
        (IsRetried max (suc n))
        (handle_send_failure s (claim_row s.now s.worker e) err (claim_row s.now s.worker e ∷ []))
unfolding handle_send_failure mark_event_permanent_failure release_event_claim update_row
failed_one s max n e user_blocked w h q = (
  failed_row s.now user_blocked_the_bot (claim_row s.now s.worker e),
  simp beq_refl,
  refl,
  refl,
  inl refl,
)
failed_one s max n e user_deactivated w h q = (
  failed_row s.now user_account_deactivated (claim_row s.now s.worker e),
  simp beq_refl,
  refl,
  refl,
  inl refl,
)
failed_one s max n e err w h q = go (leb s.max_attempts e.attempt_count) refl
  where
    c : Event
    c = claim_row s.now s.worker e

    go :
        (b : Bool)
        → leb s.max_attempts e.attempt_count ≡ b
        → IsOnly e (IsRetried max (suc n)) (
            if b
            then mark_event_permanent_failure s.now e.id (exhausted_attempts err) (c ∷ [])
            else release_event_claim e.id (some (retryable err)) (c ∷ []))
    go true _ = (failed_row s.now (exhausted_attempts err) c, simp beq_refl, refl, refl, inl refl)
    go false p = (
      released_row (some (retryable err)) c,
      simp beq_refl,
      refl,
      refl,
      inr (
        record {
          unsent = w.unsent;
          lasting = w.lasting;
          free = refl;
          attempts = omega (arith, w.attempts);
        },
        ground (arith, w.attempts, h, q, p),
      ),
    )

failed_send :
    (s : Setting) (chat max n : ℕ) (e : Event) (err : SendError)
    → IsWaiting n e
    → n ≤ max
    → s.max_attempts ≡ max
    → 0 < s.batch
    → lookup e.user_id s.telegram_ids ≡ some chat
    → ((ev : Event) → ev.id ≡ e.id → attempt_send s chat (ev ∷ []) ≡ failure err)
    → IsOnly e (IsRetried max (suc n)) (dispatch_once s (e ∷ [])).0
unfolding after_single
failed_send s chat max n e err w h q b l f =
    let c : Event = claim_row s.now s.worker e in
    let (d, p, u, i, r) = failed_one s max n e err w h q in
    (
      d,
      cycle_one s chat n e w b l ∙ ap (λ a. (after_single s c a (c ∷ [])).0) (f c refl) ∙ p,
      u,
      i,
      r,
    )

-- A cycle leaves an event that failed for good.
failed_stays :
    (s : Setting) (e : Event) → e.permanent_failure ≡ true → (dispatch_once s (e ∷ [])).0 ≡ e ∷ []
unfolding dispatch_once claim_events is_eligible group_by_user dispatch_groups
failed_stays s e h = ground (arith, h)

failures-IsRetried :
    (settings : ℕ → Setting) (chat max n : ℕ) (errors : ℕ → SendError) (e : Event)
    → IsWaiting 0 e
    → ((k : ℕ) → (settings k).max_attempts ≡ max)
    → ((k : ℕ) → 0 < (settings k).batch)
    → ((k : ℕ) → lookup e.user_id (settings k).telegram_ids ≡ some chat)
    → ((k : ℕ) (ev : Event)
        → ev.id ≡ e.id
        → attempt_send (settings k) chat (ev ∷ []) ≡ failure (errors k))
    → IsOnly e (IsRetried max n) (dispatch_cycles settings n (e ∷ []))
unfolding dispatch_cycles
failures-IsRetried settings chat max zero errors e w q b l f =
    (e, refl, refl, refl, inr (w, omega arith))
failures-IsRetried settings chat max (suc n) errors e w q b l f =
    let (d, p, u, i, r) = failures-IsRetried settings chat max n errors e w q b l f in
    elim r [
      | inl h ↦ (
        d,
        ap (λ t. (dispatch_once (settings n) t).0) p ∙ failed_stays (settings n) d h,
        u,
        i,
        inl h,
      )
      | inr (w', h) ↦
          let (d', p', u', i', r') =
            failed_send (settings n) chat max n d (errors n) w' h (q n) (b n)
              (ap (λ x. lookup x (settings n).telegram_ids) u ∙ l n) (λ ev j. f n ev (j ∙ i)) in
          (d', ap (λ t. (dispatch_once (settings n) t).0) p ∙ p', u' ∙ u, i' ∙ i, r')
    ]

-- An event that is alone in the table, and whose every send ends in an error that Telegram reports, has
-- failed for good after at most max_attempts + 1 cycles, and stays so, if every cycle has room for it and
-- its user has a chat.
pub failing_sends_end :
    (settings : ℕ → Setting) (chat max n : ℕ) (errors : ℕ → SendError) (e : Event)
    → IsWaiting 0 e
    → ((k : ℕ) → (settings k).max_attempts ≡ max)
    → ((k : ℕ) → 0 < (settings k).batch)
    → ((k : ℕ) → lookup e.user_id (settings k).telegram_ids ≡ some chat)
    → ((k : ℕ) (ev : Event)
        → ev.id ≡ e.id
        → attempt_send (settings k) chat (ev ∷ []) ≡ failure (errors k))
    → max < n
    → IsOnly e (λ d. d.permanent_failure ≡ true) (dispatch_cycles settings n (e ∷ []))
failing_sends_end settings chat max n errors e w q b l f h =
    let (d, p, u, i, r) = failures-IsRetried settings chat max n errors e w q b l f in
    (d, p, u, i, (elim r [ inl t ↦ t | inr (w', k) ↦ absurd (omega (arith, h, k)) ]))
