-- ===== src/QPaper/Deliver.antt =====
-- deliver() of app/services/qpaper_service.py: what it does with the row that it reads, the waiting for
-- another acquisition, and the sending of a cached file. Telegram is a parameter.
use updatednitr.Prelude.{
  ℕ, zero, suc, ◌+◌, String, Bool, true, false, Option, none, some, List, [], ◌∷◌, leb,
  if◌then◌else◌, ◌==◌, string_eq,
}
use updatednitr.QPaper.Row.{
  fetch_in_progress, paper_available, paper_not_available, retryable_failure, permanent_failure,
  Paper, claim_for_acquisition,
}
use updatednitr.QPaper.Acquire.{
  Work, Prewarmed, already, negative, busy, missing, no_target, prewarm_acquire,
  acquire_and_deliver, QpResult, delivered, not_available, permanent, error, in_progress,
}

-- What deliver() turns to: an answer, the cached file, or the claim.
pub data Route : Type 0 where
  answer : QpResult → Route
  send_cached : (file_id : String) → (kind : Option String) → Route
  try_claim : Route

-- `x or default`, and the test of a file id: None and the empty text are false.
abbrev pub present : Option String → Option String
present none = none
present (some s) = if s == "" then none else some s

unfoldable pub route : Option Paper → Route
route none = answer (error "Question paper record not found.")
route (some p) = elim p.status [
  | paper_available ↦ (elim (present p.telegram_file_id) [
    | some file_id ↦ send_cached file_id p.file_kind
    | none ↦ try_claim
  ])
  | paper_not_available ↦ answer not_available
  | permanent_failure ↦ (elim (present p.error_message) [
    | some m ↦ answer (permanent (some m))
    | none ↦ answer (permanent (some "permanent_failure"))
  ])
  | fetch_in_progress ↦ try_claim
  | retryable_failure ↦ try_claim
]

-- One poll of _wait_and_deliver; `none` keeps polling.
unfoldable pub poll : Option Paper → Option Route
poll none = some (answer (error "Record disappeared during wait."))
poll (some p) = elim p.status [
  | paper_available ↦ (elim (present p.telegram_file_id) [
    | some file_id ↦ some (send_cached file_id p.file_kind)
    | none ↦ none
  ])
  | paper_not_available ↦ some (answer not_available)
  | permanent_failure ↦ some (answer (permanent p.error_message))
  | retryable_failure ↦ some try_claim
  | fetch_in_progress ↦ none
]

-- The polls until the timeout, by what they read.
unfoldable pub wait_and_deliver : List (Option Paper) → Route
unfolding poll
wait_and_deliver [] = answer in_progress
wait_and_deliver (snap ∷ snaps) =
    let later = wait_and_deliver snaps in elim (poll snap) [ some r ↦ r | none ↦ later ]

-- What bot.send_document does with a cached file. `bad_file`: the text of the TelegramAPIError speaks
-- of the file id; `gone`: of the chat.
pub data FileAnswer : Type 0 where
  sent forbidden : FileAnswer
  retry_after : ℕ → FileAnswer
  bad_file gone api_error : String → FileAnswer

-- How the loop ends: an answer, or the recovery from a bad file id.
pub data CachedSend : Type 0 where
  ends : QpResult → CachedSend
  recovers : String → CachedSend

unfoldable pub after_file_answer : (last : Bool) → Option String → FileAnswer → Option CachedSend
after_file_answer last kind sent = some (ends (delivered kind))
after_file_answer last kind forbidden = some (ends (error "Bot blocked by user — cannot deliver."))
after_file_answer last kind (retry_after s) =
    if last then some (ends (error "Telegram rate-limited")) else none
after_file_answer last kind (bad_file m) = some (recovers m)
after_file_answer last kind (gone m) = some (ends (error "User account unavailable."))
after_file_answer last kind (api_error m) = if last then some (ends (error m)) else none

-- _deliver_cached: the loop over DELIVERY_MAX_RETRIES attempts, with the attempts left.
unfoldable pub deliver_cached : (left attempt : ℕ) → Option String → (ℕ → FileAnswer) → CachedSend
unfolding after_file_answer
deliver_cached zero attempt kind answers = ends (error "Delivery exhausted retries.")
deliver_cached (suc left) attempt kind answers =
    let again = deliver_cached left (attempt + 1) kind answers in
    elim (after_file_answer (leb left 0) kind (answers attempt)) [ none ↦ again | some r ↦ r ]

-- prewarm_one: what it reads of the row decides whether it claims; then it acquires, at `later`, the
-- row that nobody else has changed meanwhile.
unfoldable pub prewarm_claimed :
    (later permanent_after : ℕ) → Work → Paper × Bool → Paper × Prewarmed
prewarm_claimed later permanent_after w (p, true) = prewarm_acquire later permanent_after w p
prewarm_claimed later permanent_after w (p, false) = (p, busy)

unfoldable pub prewarm_one :
    (now later stale permanent_after : ℕ)
    → (job_id : String) → (postback : Option String) → Option Paper
    → Work
    → Paper
    → Paper × Prewarmed
unfolding prewarm_claimed
prewarm_one now later stale permanent_after job_id postback none w p = (p, missing)
prewarm_one now later stale permanent_after job_id postback (some snap) w p =
    let claims : Paper × Prewarmed = (elim (present postback) [
      | none ↦ (p, no_target)
      | some target ↦
          prewarm_claimed later permanent_after w (claim_for_acquisition now stale job_id p)
    ]) in
    elim snap.status [
      | paper_available ↦ (elim (present snap.telegram_file_id) [
        | none ↦ claims
        | some f ↦ (p, already)
      ])
      | paper_not_available ↦ (p, negative)
      | fetch_in_progress ↦ claims
      | retryable_failure ↦ claims
      | permanent_failure ↦ claims
    ]

-- _claim_or_wait_and_deliver: the acquisition of the claimed row, or nothing but waiting (`none`).
unfoldable pub claim_or_wait :
    (now later stale permanent_after : ℕ)
    → (job_id : String) → Work
    → Paper
    → Paper × Option QpResult
claim_or_wait now later stale permanent_after job_id w p =
    let (p', won) = claim_for_acquisition now stale job_id p in
    let (p'', result) = acquire_and_deliver later permanent_after w p' in
    if won then (p'', some result) else (p', none)
