-- ===== src/Examples/Papers.antt =====
-- Runs of the cache of question papers (app/services/qpaper_service.py).
use updatednitr.Prelude.{ℕ, zero, suc, ◌+◌, ◌≡◌, refl, true, false, none, some, arith}
use updatednitr.QPaper.Row.{
  forget_file, Paper, retryable_failure, permanent_failure, claim_for_acquisition,
}
use updatednitr.QPaper.Acquire.{
  uploaded, credentials_quarantined, fault, other_error, acquire_and_deliver, prewarm_acquire,
  update_credentials, donor_creds,
}
use updatednitr.QPaper.Lifecycle.{
  here, next, claims, final_stays, IsTried, transient_rounds, transient_faults_end,
}
use updatednitr.QPaper.Contention.{
  one_acquirer, quarantined_blocks, late_fault_takes_over, late_recovery_takes_over,
}
use updatednitr.QPaper.Deliver.{FileAnswer, sent, retry_after}

abbrev paper : Paper
paper = record {
  status = retryable_failure;
  telegram_file_id = none;
  file_kind = none;
  file_size_bytes = none;
  acquired_by = none;
  acquired_at = none;
  lease_expires_at = none;
  last_attempt_at = none;
  attempt_count = 0;
  error_message = none;
  not_available_until = none;
  updated_at = 0;
}

abbrev lost : Paper
lost = record paper { status = permanent_failure; attempt_count = 3 }

final_stays_example : (claim_for_acquisition 10 300 "job" lost).0 ≡ lost
final_stays_example = final_stays (next here (claims 10 300 "job" lost)) refl

transient_faults_end_example :
    IsTried 3 5 (transient_rounds (λ n. 600 + n) 300 3 "job" "timeout" 5 paper)
transient_faults_end_example =
    transient_faults_end (λ n. 600 + n) 300 3 5 "job" "timeout" paper refl refl (omega arith)

first_claim : (claim_for_acquisition 10 300 "job" paper).1 ≡ true
unfolding claim_for_acquisition
first_claim = refl

one_acquirer_example :
    claim_for_acquisition 200 300 "other" (claim_for_acquisition 10 300 "job" paper).0
    ≡ ((claim_for_acquisition 10 300 "job" paper).0, false)
one_acquirer_example = one_acquirer 10 200 300 "job" "other" paper first_claim (omega arith)

quarantined_blocks_example :
    let held = (claim_for_acquisition 10 300 "job" paper).0 in
    let (left, result) = acquire_and_deliver 12 3 (credentials_quarantined "use /forgot") held in
    let (given, word) = prewarm_acquire 12 3 (credentials_quarantined "use /forgot") held in
    (result ≡ update_credentials)
    × (claim_for_acquisition 310 300 "other" left ≡ (left, false))
    × (word ≡ donor_creds)
    × ((claim_for_acquisition 310 300 "other" given).1 ≡ true)
quarantined_blocks_example =
    quarantined_blocks 10 12 310 300 3 "job" "other" "use /forgot" paper refl (omega arith)

late_fault_takes_over_example :
    let held = (claim_for_acquisition 10 300 "job" paper).0 in
    let (taken, won) = claim_for_acquisition 400 300 "other" held in
    let failed = (acquire_and_deliver 401 3 (fault (other_error false "timeout")) taken).0 in
    (won ≡ true)
    × (taken.acquired_by ≡ some "other")
    × (failed.acquired_by ≡ none)
    × ((acquire_and_deliver 410 3 (uploaded "file" "pdf" 9 false) failed).0 ≡ failed)
late_fault_takes_over_example =
    late_fault_takes_over 10 400 401 410 300 3 9 "job" "other" "timeout" "file" "pdf" false paper
      refl (omega arith)

late_recovery_takes_over_example :
    let held = (claim_for_acquisition 10 300 "job" paper).0 in
    let freed = forget_file 20 "Stale file_id" held in
    let (taken, won) = claim_for_acquisition 21 300 "other" freed in
    (held.acquired_by ≡ some "job")
    × (freed.acquired_by ≡ some "job")
    × (won ≡ true)
    × (taken.acquired_by ≡ some "other")
    × (taken.attempt_count ≡ 1)
late_recovery_takes_over_example =
    late_recovery_takes_over 10 20 21 300 "job" "other" "Stale file_id" paper first_claim

-- A flood wait, then the file goes out.
abbrev flooded_once : ℕ → FileAnswer
flooded_once zero = retry_after 5
flooded_once (suc n) = sent
