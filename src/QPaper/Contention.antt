-- ===== src/QPaper/Contention.antt =====
-- Several users at one paper of app/services/qpaper_service.py.
use updatednitr.Prelude.{ℕ, ◌+◌, ◌≤◌, ◌<◌, ◌≡◌, String, Bool, true, false, none, some, arith}
use updatednitr.QPaper.Row.{
  retryable_failure, Paper, claim_for_acquisition, is_claimable, mark_available, mark_failure,
  forget_file,
}
use updatednitr.QPaper.Acquire.{
  uploaded, credentials_quarantined, fault, other_error, acquire_and_deliver, prewarm_acquire,
  update_credentials, donor_creds, failure_status,
}

-- A claim excludes others: after a claim that succeeds, another claim of the row as it left it fails
-- until the first is stale, and leaves the row as it is.
pub one_acquirer :
    (now now' stale : ℕ) (job_id other : String) (p : Paper)
    → (claim_for_acquisition now stale job_id p).1 ≡ true
    → now' ≤ now + stale
    → claim_for_acquisition now' stale other (claim_for_acquisition now stale job_id p).0
      ≡ ((claim_for_acquisition now stale job_id p).0, false)
unfolding claim_for_acquisition is_claimable
one_acquirer now now' stale job_id other p h le = ground arith

-- A student whose credentials are quarantined blocks the paper: the request is answered, and the row
-- stays claimed, so every other student's claim fails until the claim is stale. A pre-warm in the same
-- case gives the row back: the next claim succeeds at once.
pub quarantined_blocks :
    (now later now' stale permanent_after : ℕ) (job_id other m : String) (p : Paper)
    → p.status ≡ retryable_failure
    → now' ≤ now + stale
    → let held = (claim_for_acquisition now stale job_id p).0 in
      let (left, result) =
        acquire_and_deliver later permanent_after (credentials_quarantined m) held in
      let (given, word) = prewarm_acquire later permanent_after (credentials_quarantined m) held in
      (result ≡ update_credentials)
      × (claim_for_acquisition now' stale other left ≡ (left, false))
      × (word ≡ donor_creds)
      × ((claim_for_acquisition now' stale other given).1 ≡ true)
unfolding claim_for_acquisition is_claimable acquire_and_deliver prewarm_acquire mark_failure
quarantined_blocks now later now' stale permanent_after job_id other m p h le = ground arith

-- The end of an acquisition is not tied to its claim: when a claim has gone stale and another worker
-- has claimed the paper, a fault of the first worker still takes the paper from the second, and the
-- second's download, when it comes, is thrown away: the row is not made available.
pub late_fault_takes_over :
    (now now' late done stale permanent_after size : ℕ) (job_id other err file_id kind : String)
    (to_user : Bool) (p : Paper)
    → p.status ≡ retryable_failure
    → now + stale < now'
    → let held = (claim_for_acquisition now stale job_id p).0 in
      let (taken, won) = claim_for_acquisition now' stale other held in
      let failed =
        (acquire_and_deliver late permanent_after (fault (other_error false err)) taken).0 in
      (won ≡ true)
      × (taken.acquired_by ≡ some other)
      × (failed.acquired_by ≡ none)
      × ((acquire_and_deliver done permanent_after (uploaded file_id kind size to_user) failed).0
          ≡ failed)
unfolding claim_for_acquisition is_claimable acquire_and_deliver mark_failure mark_available
    failure_status
late_fault_takes_over now now' late done stale permanent_after size job_id other err file_id kind
      to_user p h lt =
    ground arith

-- The recovery from a bad file id does not look at the status: a student whose sending of the old file
-- fails late takes the paper from the worker that is acquiring it anew. The next claim succeeds while
-- that worker still works, whenever it comes, and the attempts that count towards giving up are
-- counted from the start again.
pub late_recovery_takes_over :
    (now late now' stale : ℕ) (job_id other err : String) (p : Paper)
    → (claim_for_acquisition now stale job_id p).1 ≡ true
    → let held = (claim_for_acquisition now stale job_id p).0 in
      let freed = forget_file late err held in
      let (taken, won) = claim_for_acquisition now' stale other freed in
      (held.acquired_by ≡ some job_id)
      × (freed.acquired_by ≡ some job_id)
      × (won ≡ true)
      × (taken.acquired_by ≡ some other)
      × (taken.attempt_count ≡ 1)
unfolding claim_for_acquisition is_claimable forget_file
late_recovery_takes_over now late now' stale job_id other err p h = ground arith
