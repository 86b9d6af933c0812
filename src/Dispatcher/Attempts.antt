-- ===== src/Dispatcher/Attempts.antt =====
-- The retries of _send_with_retry of app/services/event_dispatcher_service.py.
use updatednitr.Prelude.{
  ℕ, zero, suc, ◌+◌, ◌<◌, ◌≡◌, refl, ap, ◌∙◌, Bool, true, false, none, some, arith, leb,
  lt→leb_false, if◌then◌else◌,
}
use mathlib.Core.Path.{subst}
use updatednitr.Dispatcher.Table.{
  user_blocked, user_deactivated, floodwait_exhausted, telegram_api_error,
}
use updatednitr.Dispatcher.Send.{
  Answer, delivered, forbidden, retry_after, api_error, raises, Sent, success, failure, raised,
  verdict, send_loop, send_with_retry, transient,
}

-- The result that an answer stands for when no attempt follows it.
abbrev pub final : Answer → Sent
final delivered = success
final forbidden = failure user_blocked
final (retry_after s) = failure (floodwait_exhausted s)
final (api_error gone m) = if gone then failure user_deactivated else failure (telegram_api_error m)
final (raises m) = raised m

verdict-final : (last : Bool) (a : Answer) → transient a ≡ false → verdict last a ≡ some (final a)
unfolding verdict
verdict-final last delivered h = refl
verdict-final last forbidden h = refl
verdict-final last (retry_after s) h = ground arith
verdict-final last (api_error gone m) h = ground arith
verdict-final last (raises m) h = refl

verdict-again : (a : Answer) → transient a ≡ true → verdict false a ≡ none
unfolding verdict
verdict-again delivered h = ground arith
verdict-again forbidden h = ground arith
verdict-again (retry_after s) h = refl
verdict-again (api_error gone m) h = ground arith
verdict-again (raises m) h = ground arith

verdict-last : (a : Answer) → verdict true a ≡ some (final a)
unfolding verdict
verdict-last delivered = refl
verdict-last forbidden = refl
verdict-last (retry_after s) = refl
verdict-last (api_error gone m) = ground arith
verdict-last (raises m) = refl

-- The loop with `left` attempts from `start` on: the answer of number k decides, when it is not
-- transient or there is no attempt after it, and those before it are transient.
send_loop-again :
    (left start : ℕ) (answers : ℕ → Answer)
    → verdict (leb left 0) (answers start) ≡ none
    → send_loop (suc left) start answers ≡ send_loop left (start + 1) answers
unfolding send_loop
send_loop-again left start answers e = rw (e, send_loop) refl

send_loop-over :
    (left start : ℕ) (answers : ℕ → Answer) (r : Sent)
    → verdict (leb left 0) (answers start) ≡ some r
    → send_loop (suc left) start answers ≡ (r, start + 1)
unfolding send_loop
send_loop-over left start answers r e = rw (e, send_loop) refl

verdict-more : (left : ℕ) (a : Answer) → verdict (leb (suc left) 0) a ≡ verdict false a
verdict-more left a = ap (λ b. verdict b a) (lt→leb_false (suc left) 0 (omega arith))

send_loop-stops :
    (left start : ℕ) (answers : ℕ → Answer)
    → (1 < suc left → transient (answers start) ≡ false)
    → send_loop (suc left) start answers ≡ (final (answers start), start + 1)
send_loop-stops zero start answers at =
    send_loop-over zero start answers (final (answers start)) (verdict-last (answers start))
send_loop-stops (suc left) start answers at =
    send_loop-over (suc left) start answers (final (answers start))
      (verdict-more left (answers start) ∙ verdict-final false (answers start) (at (omega arith)))

send_loop-decides :
    (left start k : ℕ) (answers : ℕ → Answer)
    → k < left
    → ((j : ℕ) → j < k → transient (answers (start + j)) ≡ true)
    → (suc k < left → transient (answers (start + k)) ≡ false)
    → send_loop left start answers ≡ (final (answers (start + k)), start + k + 1)
unfolding send_loop
send_loop-decides zero start k answers h before at = absurd (omega (arith, h))
send_loop-decides (suc left) start zero answers h before at =
    subst (λ n. send_loop (suc left) start answers ≡ (final (answers n), n + 1)) (omega arith)
      (send_loop-stops left start answers
        (λ p. subst (λ n. transient (answers n) ≡ false) (omega arith) (at p)))
send_loop-decides (suc zero) start (suc k) answers h before at = absurd (omega (arith, h))
send_loop-decides (suc (suc left)) start (suc k) answers h before at =
    send_loop-again (suc left) start answers (
      verdict-more left (answers start)
      ∙ verdict-again (answers start) (moved (omega arith) (before 0 (omega arith))))
    ∙ (subst (λ n. send_loop (suc left) (start + 1) answers ≡ (final (answers n), n + 1))
        (omega arith)
        (subst
          (λ n. send_loop (suc left) (start + 1) answers ≡ (final (answers (start + 1 + k)), n))
          (omega arith)
          (send_loop-decides (suc left) (start + 1) k answers (omega (arith, h))
            (λ j p. moved (omega arith) (before (suc j) (omega (arith, p))))
            (λ p. moved (omega arith) (at (omega (arith, p)))))))
  where
    moved : {m n : ℕ} {b : Bool} → m ≡ n → transient (answers m) ≡ b → transient (answers n) ≡ b
    moved {b} q = subst (λ n. transient (answers n) ≡ b) q

-- The first answer that is not transient decides what _send_with_retry reports, and when all are
-- transient the last one that max_retries allows does. The number of attempts is that of this answer,
-- so never above max_retries.
pub send_with_retry-decides :
    (max_retries k : ℕ) (answers : ℕ → Answer)
    → k < max_retries
    → ((j : ℕ) → j < k → transient (answers j) ≡ true)
    → (suc k < max_retries → transient (answers k) ≡ false)
    → (send_with_retry max_retries answers ≡ final (answers k))
      × ((send_loop max_retries 0 answers).1 ≡ suc k)
unfolding send_with_retry
send_with_retry-decides max_retries k answers h before at =
    let q =
      send_loop-decides max_retries 0 k answers h
        (λ j p. subst (λ n. transient (answers n) ≡ true) (omega arith) (before j p))
        (λ p. subst (λ n. transient (answers n) ≡ false) (omega arith) (at p)) in
    (
      subst (λ n. send_with_retry max_retries answers ≡ final (answers n)) (omega arith)
          (ap (λ (r : Sent × ℕ). r.0) q),
      ap (λ (r : Sent × ℕ). r.1) q ∙ omega arith,
    )
