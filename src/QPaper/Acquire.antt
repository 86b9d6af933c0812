-- ===== src/QPaper/Acquire.antt =====
-- What follows a claim in app/services/qpaper_service.py: the download, the upload, and the state that
-- they leave, for a student's request and for a pre-warm. The portal and Telegram are parameters: what
-- they end with. The count of attempts is read and the row is marked in one step.
use updatednitr.Prelude.{ℕ, String, Bool, true, false, ◌||◌, Option, some, leb, if◌then◌else◌}
use updatednitr.QPaper.Row.{
  QpStatus, fetch_in_progress, paper_available, paper_not_available, retryable_failure,
  permanent_failure, Paper, mark_available, mark_failure, mark_not_available,
}

-- An exception that is neither of the two that have a branch of their own: InvalidContextError, or
-- any other, of which _is_permanent_error asks whether its text says that there is no paper.
pub data Fault : Type 0 where
  invalid_context : String → Fault
  other_error : (says_no_paper : Bool) → String → Fault

unfoldable pub is_permanent_error : Fault → Bool
is_permanent_error (invalid_context m) = true
is_permanent_error (other_error says_no_paper m) = says_no_paper

abbrev pub text_of : Fault → String
text_of (invalid_context m) = m
text_of (other_error says_no_paper m) = m

-- How _nitris_download and _telegram_upload end. `channel_down`: the RuntimeError of an upload.
pub data Work : Type 0 where
  uploaded : (file_id kind : String) → (size : ℕ) → (to_user : Bool) → Work
  paper_missing : String → Work
  credentials_quarantined : String → Work
  channel_down : String → Work
  fault : Fault → Work

-- What _acquire_and_deliver answers. `forward`: _deliver_cached goes on with the new file.
pub data QpResult : Type 0 where
  delivered : Option String → QpResult
  forward : (file_id kind : String) → QpResult
  not_available : QpResult
  in_progress : QpResult
  update_credentials : QpResult
  permanent : Option String → QpResult
  error : String → QpResult

-- The status of a failure: permanent by its kind, or by the attempts.
unfoldable pub failure_status : (permanent_after : ℕ) → Fault → Paper → QpStatus
unfolding is_permanent_error
failure_status permanent_after f p =
    if is_permanent_error f || leb permanent_after p.attempt_count
    then permanent_failure
    else retryable_failure

abbrev pub failure_result : QpStatus → String → QpResult
failure_result permanent_failure m = permanent (some m)
failure_result fetch_in_progress m = error m
failure_result paper_available m = error m
failure_result paper_not_available m = error m
failure_result retryable_failure m = error m

abbrev pub fail : ℕ → ℕ → Fault → Paper → Paper × QpResult
fail now permanent_after f p =
    let new_status : QpStatus = failure_status permanent_after f p in
    (mark_failure now new_status (text_of f) p, failure_result new_status (text_of f))

-- _acquire_and_deliver, after the claim.
unfoldable pub acquire_and_deliver : (now permanent_after : ℕ) → Work → Paper → Paper × QpResult
unfolding mark_available mark_not_available mark_failure failure_status
acquire_and_deliver now permanent_after (uploaded file_id kind size to_user) p = (
  mark_available now file_id kind size p,
  (if to_user then delivered (some kind) else forward file_id kind),
)
acquire_and_deliver now permanent_after (paper_missing m) p =
    (mark_not_available now m p, not_available)
acquire_and_deliver now permanent_after (credentials_quarantined m) p = (p, update_credentials)
acquire_and_deliver now permanent_after (channel_down m) p =
    fail now permanent_after (other_error false m) p
acquire_and_deliver now permanent_after (fault f) p = fail now permanent_after f p

-- The words that prewarm_one returns.
pub data Prewarmed : Type 0 where
  now_available not_on_portal already negative busy missing no_target : Prewarmed
  channel_unavailable donor_creds failed permanent_failed : Prewarmed

abbrev pub prewarm_failure : QpStatus → Prewarmed
prewarm_failure permanent_failure = permanent_failed
prewarm_failure fetch_in_progress = failed
prewarm_failure paper_available = failed
prewarm_failure paper_not_available = failed
prewarm_failure retryable_failure = failed

-- prewarm_one, after its claim.
unfoldable pub prewarm_acquire : (now permanent_after : ℕ) → Work → Paper → Paper × Prewarmed
unfolding mark_available mark_not_available mark_failure failure_status
prewarm_acquire now permanent_after (uploaded file_id kind size to_user) p =
    (mark_available now file_id kind size p, now_available)
prewarm_acquire now permanent_after (paper_missing m) p =
    (mark_not_available now m p, not_on_portal)
prewarm_acquire now permanent_after (credentials_quarantined m) p =
    (mark_failure now retryable_failure m p, donor_creds)
prewarm_acquire now permanent_after (channel_down m) p =
    (mark_failure now retryable_failure m p, channel_unavailable)
prewarm_acquire now permanent_after (fault f) p =
    ((fail now permanent_after f p).0, prewarm_failure (failure_status permanent_after f p))
