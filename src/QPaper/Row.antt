-- ===== src/QPaper/Row.antt =====
-- A row of `question_paper_caches` and the statements on it in app/services/qpaper_service.py. All
-- name the row by its id, so the model has one row. Times are in seconds.
use updatednitr.Prelude.{
  ℕ, ◌+◌, ◌*◌, String, Bool, true, false, Option, none, some, ltb, if◌then◌else◌,
}

pub data QpStatus : Type 0 where
  fetch_in_progress paper_available paper_not_available : QpStatus
  retryable_failure permanent_failure : QpStatus

pub record Paper : Type 0 where
  pub status : QpStatus
  pub telegram_file_id : Option String
  pub file_kind : Option String
  pub file_size_bytes : Option ℕ
  pub acquired_by : Option String
  pub acquired_at : Option ℕ
  pub lease_expires_at : Option ℕ
  pub last_attempt_at : Option ℕ
  pub attempt_count : ℕ
  pub error_message : Option String
  pub not_available_until : Option ℕ
  pub updated_at : ℕ

-- acquired_at IS NULL OR acquired_at < NOW() - stale_secs
abbrev pub is_stale : (now stale : ℕ) → Option ℕ → Bool
is_stale now stale none = true
is_stale now stale (some t) = ltb (t + stale) now

-- The WHERE of the claim.
unfoldable pub is_claimable : (now stale : ℕ) → Paper → Bool
is_claimable now stale p = elim p.status [
  | retryable_failure ↦ true
  | fetch_in_progress ↦ is_stale now stale p.acquired_at
  | paper_available ↦ false
  | paper_not_available ↦ false
  | permanent_failure ↦ false
]

abbrev pub claimed : (now stale : ℕ) → String → Paper → Paper
claimed now stale job_id p = record p {
  status = fetch_in_progress;
  acquired_by = some job_id;
  acquired_at = some now;
  lease_expires_at = some (now + stale);
  last_attempt_at = some now;
  attempt_count = p.attempt_count + 1;
  error_message = none;
  updated_at = now;
}

-- _claim_for_acquisition: the row after it, and whether this caller has the claim.
unfoldable pub claim_for_acquisition : (now stale : ℕ) → String → Paper → Paper × Bool
unfolding is_claimable
claim_for_acquisition now stale job_id p =
    if is_claimable now stale p then (claimed now stale job_id p, true) else (p, false)

-- WHERE … AND status = :in_progress
abbrev pub when_in_progress : (Paper → Paper) → Paper → Paper
when_in_progress f p = elim p.status [
  | fetch_in_progress ↦ f p
  | paper_available ↦ p
  | paper_not_available ↦ p
  | retryable_failure ↦ p
  | permanent_failure ↦ p
]

unfoldable pub mark_available : ℕ → (file_id kind : String) → (size : ℕ) → Paper → Paper
mark_available now file_id kind size = when_in_progress (λ p. record p {
  status = paper_available;
  telegram_file_id = some file_id;
  file_kind = some kind;
  file_size_bytes = some size;
  acquired_by = none;
  acquired_at = none;
  error_message = none;
  updated_at = now;
})

unfoldable pub mark_failure : ℕ → (new_status : QpStatus) → String → Paper → Paper
mark_failure now new_status err = when_in_progress (λ p. record p {
  status = new_status;
  acquired_by = none;
  acquired_at = none;
  error_message = some err;
  updated_at = now;
})

unfoldable pub mark_not_available : ℕ → String → Paper → Paper
mark_not_available now err = when_in_progress (λ p. record p {
  status = paper_not_available;
  not_available_until = none;
  acquired_by = none;
  acquired_at = none;
  error_message = some err;
  updated_at = now;
})

-- The recovery in _deliver_cached from a file id that Telegram does not know any more.
unfoldable pub forget_file : ℕ → String → Paper → Paper
forget_file now err p = record p {
  status = retryable_failure;
  telegram_file_id = none;
  attempt_count = 0;
  error_message = some err;
  updated_at = now;
}

-- _reap_stale_locks, on the row. `reaped` is the message with the reaper's note.
unfoldable pub reap_stale_locks :
    (now stale : ℕ) → (reaped : Option String → String) → Paper → Paper
reap_stale_locks now stale reaped = when_in_progress (λ p. elim p.acquired_at [
  | none ↦ p
  | some t ↦
      if ltb (t + stale * 2) now
      then record p {
        status = retryable_failure;
        acquired_by = none;
        error_message = some (reaped p.error_message);
        updated_at = now;
      }
      else p
])
