-- ===== src/Dispatcher/Send.antt =====
-- _send_with_retry of app/services/event_dispatcher_service.py. Telegram is a parameter: its answer
-- to each attempt.
use updatednitr.Prelude.{
  ℕ, zero, suc, ◌+◌, String, Bool, true, false, Option, none, some, leb, if◌then◌else◌,
}
use updatednitr.Dispatcher.Table.{
  SendError, user_blocked, user_deactivated, send_exhausted_retries, floodwait_exhausted,
  telegram_api_error,
}

-- What bot.send_message does at one attempt. `gone`: the text of the TelegramAPIError says "chat not
-- found" or "deactivated". `raises`: any other exception.
pub data Answer : Type 0 where
  delivered forbidden : Answer
  retry_after : ℕ → Answer
  api_error : (gone : Bool) → String → Answer
  raises : String → Answer

pub data Sent : Type 0 where
  success : Sent
  failure : SendError → Sent
  raised : String → Sent

-- What the loop does after an answer: it is over, or goes on, unless it was the last attempt.
unfoldable pub verdict : (last : Bool) → Answer → Option Sent
verdict last delivered = some success
verdict last forbidden = some (failure user_blocked)
verdict last (retry_after s) = if last then some (failure (floodwait_exhausted s)) else none
verdict last (api_error gone m) =
    if gone
    then some (failure user_deactivated)
    else if last
    then some (failure (telegram_api_error m))
    else none
verdict last (raises m) = some (raised m)

-- `for attempt in range(FLOODWAIT_MAX_RETRIES)`, with the attempts left; and how many were made.
unfoldable pub send_loop : (left attempt : ℕ) → (ℕ → Answer) → Sent × ℕ
unfolding verdict
send_loop zero attempt answers = (failure send_exhausted_retries, attempt)
send_loop (suc left) attempt answers =
    let again = send_loop left (attempt + 1) answers in
    elim (verdict (leb left 0) (answers attempt)) [ none ↦ again | some s ↦ (s, attempt + 1) ]

unfoldable pub send_with_retry : (max_retries : ℕ) → (ℕ → Answer) → Sent
unfolding send_loop
send_with_retry max_retries answers = (send_loop max_retries 0 answers).0

-- An answer that ends the loop at whatever attempt it comes.
abbrev pub transient : Answer → Bool
transient delivered = false
transient forbidden = false
transient (retry_after s) = true
transient (api_error gone m) = if gone then false else true
transient (raises m) = false
