-- ===== src/QPaper/Lifecycle.antt =====
-- How the status of a cached paper of app/services/qpaper_service.py can change.
use updatednitr.Prelude.{
  ℕ, zero, suc, ◌≤◌, ◌<◌, ◌≡◌, refl, ◌⊎◌, inl, inr, ap, ◌∙◌, String, Bool, true, false, Option,
  arith,
}
use updatednitr.QPaper.Row.{
  QpStatus, fetch_in_progress, paper_available, paper_not_available, retryable_failure,
  permanent_failure, Paper, claim_for_acquisition, reap_stale_locks,
}
use updatednitr.QPaper.Acquire.{
  Work, uploaded, paper_missing, credentials_quarantined, channel_down, fault, other_error,
  acquire_and_deliver, prewarm_acquire,
}

-- What happens to the row: claims, ends of acquisitions and of pre-warms, late ones included, and the
-- reaper, by any callers at any time.
pub data Change : Paper → Paper → Type 0 where
  claims :
      (now stale : ℕ) (job_id : String) (p : Paper)
      → Change p (claim_for_acquisition now stale job_id p).0
  acquires :
      (now permanent_after : ℕ) (w : Work) (p : Paper)
      → Change p (acquire_and_deliver now permanent_after w p).0
  prewarms :
      (now permanent_after : ℕ) (w : Work) (p : Paper)
      → Change p (prewarm_acquire now permanent_after w p).0
  reaps :
      (now stale : ℕ) (reaped : Option String → String) (p : Paper)
      → Change p (reap_stale_locks now stale reaped p)

pub data Changes (p : Paper) : Paper → Type 0 where
  here : Changes p p
  next : {q r : Paper} → Changes p q → Change q r → Changes p r

abbrev pub is_final : QpStatus → Bool
is_final paper_available = true
is_final paper_not_available = true
is_final permanent_failure = true
is_final fetch_in_progress = false
is_final retryable_failure = false

claim_final :
    (now stale : ℕ) (job_id : String) (p : Paper)
    → is_final p.status ≡ true
    → (claim_for_acquisition now stale job_id p).0 ≡ p
unfolding claim_for_acquisition
claim_final now stale job_id p h = ground arith

acquire_final :
    (now permanent_after : ℕ) (w : Work) (p : Paper)
    → is_final p.status ≡ true
    → (acquire_and_deliver now permanent_after w p).0 ≡ p
unfolding acquire_and_deliver
acquire_final now permanent_after (uploaded f k n u) p h = ground arith
acquire_final now permanent_after (paper_missing m) p h = ground arith
acquire_final now permanent_after (credentials_quarantined m) p h = refl
acquire_final now permanent_after (channel_down m) p h = ground arith
acquire_final now permanent_after (fault f) p h = ground arith

prewarm_final :
    (now permanent_after : ℕ) (w : Work) (p : Paper)
    → is_final p.status ≡ true
    → (prewarm_acquire now permanent_after w p).0 ≡ p
unfolding prewarm_acquire
prewarm_final now permanent_after (uploaded f k n u) p h = ground arith
prewarm_final now permanent_after (paper_missing m) p h = ground arith
prewarm_final now permanent_after (credentials_quarantined m) p h = ground arith
prewarm_final now permanent_after (channel_down m) p h = ground arith
prewarm_final now permanent_after (fault f) p h = ground arith

reap_final :
    (now stale : ℕ) (reaped : Option String → String) (p : Paper)
    → is_final p.status ≡ true
    → reap_stale_locks now stale reaped p ≡ p
unfolding reap_stale_locks
reap_final now stale reaped p h = ground arith

Change-final : {p q : Paper} → Change p q → is_final p.status ≡ true → q ≡ p
Change-final (claims now stale job_id p) h = claim_final now stale job_id p h
Change-final (acquires now permanent_after w p) h = acquire_final now permanent_after w p h
Change-final (prewarms now permanent_after w p) h = prewarm_final now permanent_after w p h
Change-final (reaps now stale reaped p) h = reap_final now stale reaped p h

-- A paper that is available, confirmed missing, or failed for good is left exactly as it is by every
-- claim, every end of an acquisition or of a pre-warm, however late, and by the reaper, in any order.
pub final_stays : {p q : Paper} → Changes p q → is_final p.status ≡ true → q ≡ p
final_stays here h = refl
final_stays (next {q} {r} cs c) h =
    let e = final_stays cs h in Change-final c (ap (λ (x : Paper). is_final x.status) e ∙ h) ∙ e

-- Rounds of a claim and a transient fault of its acquisition, at the given times.
abbrev pub transient_rounds :
    (ℕ → ℕ) → (stale permanent_after : ℕ) → (job_id err : String) → ℕ → Paper → Paper
transient_rounds times stale permanent_after job_id err zero p = p
transient_rounds times stale permanent_after job_id err (suc n) p =
    (acquire_and_deliver (times n) permanent_after (fault (other_error false err))
      (claim_for_acquisition (times n) stale job_id
        (transient_rounds times stale permanent_after job_id err n p)).0).0

-- After `n` of them: the row counts them, and is retryable or, from the limit on, permanent.
abbrev pub IsTried : (permanent_after n : ℕ) → Paper → Type 0
IsTried permanent_after n p =
    ((n < permanent_after) × (p.status ≡ retryable_failure) × (p.attempt_count ≡ n))
    ⊎ ((permanent_after ≤ n) × (p.status ≡ permanent_failure) × (p.attempt_count ≡ permanent_after))

one_round :
    (now stale permanent_after n : ℕ) (job_id err : String) (p : Paper)
    → IsTried permanent_after n p
    → IsTried permanent_after
        (suc n)
        (acquire_and_deliver now permanent_after
          (fault (other_error false err))
          (claim_for_acquisition now stale job_id p).0).0
unfolding acquire_and_deliver claim_for_acquisition
one_round now stale permanent_after n job_id err p (inl (early, status, count)) = ground arith
one_round now stale permanent_after n job_id err p (inr (late, status, count)) = ground arith

-- Transient faults end: a fresh paper whose acquisitions all fail in this way is tried again exactly
-- until ACQUIRE_PERMANENT_AFTER claims were made, is then failed for good, and is not claimed again.
pub transient_faults_end :
    (times : ℕ → ℕ) (stale permanent_after n : ℕ) (job_id err : String) (p : Paper)
    → p.status ≡ retryable_failure
    → p.attempt_count ≡ 0
    → 0 < permanent_after
    → IsTried permanent_after n (transient_rounds times stale permanent_after job_id err n p)
transient_faults_end times stale permanent_after zero job_id err p s c h = inl (h, s, c)
transient_faults_end times stale permanent_after (suc n) job_id err p s c h =
    one_round (times n) stale permanent_after n job_id err
      (transient_rounds times stale permanent_after job_id err n p)
      (transient_faults_end times stale permanent_after n job_id err p s c h)
