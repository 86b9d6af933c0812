-- ===== src/Scheduler/Backoff.antt =====
-- The failures that app/services/scheduler_service.py counts for a row, and the time it backs off.
use native.Mathlib.Nat.{one-le-pow, pow-le-pow_right, mul-le-mul_left}
use updatednitr.Prelude.{
  keep, ℕ, ◌+◌, ◌-◌, ◌*◌, ◌^◌, ◌≤◌, ◌≡◌, refl, sym, ◌∙◌, String, Bool, true, false, none, some, min,
  List, [], ◌∷◌, arith, leb, if◌then◌else◌, ◌==◌, nat_eq, contains, All,
}
use updatednitr.Scheduler.Rows.{
  Row, is_disabled, update_where, succeeded, failed, new_status, backoff_seconds, failures_of,
  update_schedule_success, update_schedule_failure,
}

-- A job of a row ends: update_schedule_after_job.
pub data JobEnd : Type 0 where
  succeeds : (now jittered : ℕ) → JobEnd
  fails : (now ttl : ℕ) → String → JobEnd

unfoldable pub update_schedule_after_job : ℕ → JobEnd → List Row → List Row
update_schedule_after_job id (succeeds now jittered) t = update_schedule_success now jittered id t
update_schedule_after_job id (fails now ttl error_msg) t =
    update_schedule_failure now ttl id error_msg t

abbrev pub after_jobs : ℕ → List JobEnd → List Row → List Row
after_jobs id [] t = t
after_jobs id (j ∷ js) t = after_jobs id js (update_schedule_after_job id j t)

-- The failures since the last success, of `n` before.
abbrev pub streak : ℕ → List JobEnd → ℕ
streak n [] = n
streak n (succeeds now jittered ∷ js) = streak 0 js
streak n (fails now ttl error_msg ∷ js) = streak (n + 1) js

-- The row with the id records n failures in a row, is disabled from the fifth on, and is free.
pub record Records (n : ℕ) (r : Row) : Type 0 where
  pub failures : r.consecutive_failures ≡ n
  pub status : is_disabled r.last_status ≡ leb 5 n
  pub free : r.scheduler_claimed_at ≡ none

abbrev pub RecordsIn : (id n : ℕ) → List Row → Type 0
RecordsIn id n t = All (Records n) (keep (λ (r : Row). r.id == id) t)

contains_one : (id k : ℕ) → contains k (id ∷ []) ≡ (id == k)
unfolding contains
contains_one id k = ground arith

update_where-failures :
    (id n m : ℕ) (f : Row → Row) (t : List Row)
    → ((r : Row) → ((f r).id ≡ r.id) × ((f r).consecutive_failures ≡ n))
    → failures_of id t ≡ some m
    → failures_of id (update_where (id ∷ []) f t) ≡ some n
unfolding failures_of update_where contains
update_where-failures id n m f [] k h = ground (arith, h)
update_where-failures id n m f (r ∷ rs) k h =
    ground (arith, h, (k r).0, (k r).1, update_where-failures id n m f rs k)

Records-one :
    (id n : ℕ) (r : Row) (rs : List Row) → Records n r → RecordsIn id n rs → RecordsIn id n (r ∷ rs)
Records-one id n r rs k h = go (r.id == id)
  where
    go :
        (b : Bool)
        → All
            (Records n)
            (if b then r ∷ keep (λ (x : Row). x.id == id) rs else keep (λ (x : Row). x.id == id) rs)
    go true = (k, h)
    go false = h

records_pass :
    (id n : ℕ) (r : Row) (rs : List Row)
    → (r.id == id) ≡ false
    → RecordsIn id n rs
    → RecordsIn id n (r ∷ rs)
records_pass id n r rs e h = rw e h

update_where-Records :
    (id n : ℕ) (f : Row → Row) (t : List Row)
    → ((r : Row) → (f r).id ≡ r.id)
    → ((r : Row) → Records n (f r))
    → RecordsIn id n (update_where (id ∷ []) f t)
unfolding update_where
update_where-Records id n f [] i k = tt
update_where-Records id n f (r ∷ rs) i k =
    go (contains r.id (id ∷ [])) refl (update_where-Records id n f rs i k)
  where
    rest : List Row
    rest = update_where (id ∷ []) f rs

    go :
        (b : Bool)
        → contains r.id (id ∷ []) ≡ b
        → RecordsIn id n rest
        → RecordsIn id n ((if b then f r else r) ∷ rest)
    go true e h = Records-one id n (f r) rest (k r) h
    go false e h = records_pass id n r rest (ground (arith, sym (contains_one id r.id) ∙ e)) h

new_status-disabled : (n : ℕ) → is_disabled (new_status n) ≡ leb 5 n
new_status-disabled n = ground arith

pub one_job :
    (id n : ℕ) (j : JobEnd) (t : List Row)
    → failures_of id t ≡ some n
    → (failures_of id (update_schedule_after_job id j t) ≡ some (streak n (j ∷ [])))
      × RecordsIn id (streak n (j ∷ [])) (update_schedule_after_job id j t)
unfolding update_schedule_after_job update_schedule_success update_schedule_failure
one_job id n (succeeds now jittered) t h = (
  update_where-failures id 0 n (succeeded now jittered) t (λ r. (refl, refl)) h,
  update_where-Records id 0 (succeeded now jittered) t (λ r. refl)
      (λ r. record { failures = refl; status = ground arith; free = refl }),
)
one_job id n (fails now ttl error_msg) t h = rw h (
  update_where-failures id (n + 1) n (failed now ttl (n + 1) error_msg) t (λ r. (refl, refl)) h,
  update_where-Records id (n + 1) (failed now ttl (n + 1) error_msg) t (λ r. refl)
      (λ r. record { failures = refl; status = new_status-disabled (n + 1); free = refl }),
)

-- After any jobs of a row, at least one, the row holds the number of failures since the last
-- success, is disabled exactly when these are five or more, and its claim is released.
pub after_jobs-streak :
    (id n : ℕ) (j : JobEnd) (js : List JobEnd) (t : List Row)
    → failures_of id t ≡ some n
    → (failures_of id (after_jobs id (j ∷ js) t) ≡ some (streak n (j ∷ js)))
      × RecordsIn id (streak n (j ∷ js)) (after_jobs id (j ∷ js) t)
after_jobs-streak id n (succeeds now jittered) [] t h = one_job id n (succeeds now jittered) t h
after_jobs-streak id n (fails now ttl error_msg) [] t h = one_job id n (fails now ttl error_msg) t h
after_jobs-streak id n (succeeds now jittered) (j ∷ js) t h =
    after_jobs-streak id 0 j js (update_schedule_after_job id (succeeds now jittered) t)
      (one_job id n (succeeds now jittered) t h).0
after_jobs-streak id n (fails now ttl error_msg) (j ∷ js) t h =
    after_jobs-streak id (n + 1) j js (update_schedule_after_job id (fails now ttl error_msg) t)
      (one_job id n (fails now ttl error_msg) t h).0

-- For a TTL of at most a day, the back-off after any failure is at least the TTL, at most six times
-- the TTL and at most a day, and it never gets shorter as the failures grow.
pub backoff_seconds-bounds :
    (ttl failures more : ℕ)
    → ttl ≤ 24 * 3600
    → failures ≤ more
    → (ttl ≤ backoff_seconds ttl failures)
      × (backoff_seconds ttl failures ≤ ttl * 6)
      × (backoff_seconds ttl failures ≤ 24 * 3600)
      × (backoff_seconds ttl failures ≤ backoff_seconds ttl more)
unfolding backoff_seconds
backoff_seconds-bounds ttl failures more h le =
    let one : 1 ≤ 2 ^ (failures - 1) = one-le-pow (failures - 1) 2 (omega arith) in
    let grows : 2 ^ (failures - 1) ≤ 2 ^ (more - 1) =
      pow-le-pow_right (omega arith) (omega (arith, le)) in
    let low : ttl * 1 ≤ ttl * min (2 ^ (failures - 1)) 6 =
      mul-le-mul_left ttl (omega (arith, one)) in
    let high : ttl * min (2 ^ (failures - 1)) 6 ≤ ttl * 6 = mul-le-mul_left ttl (omega arith) in
    let mono : ttl * min (2 ^ (failures - 1)) 6 ≤ ttl * min (2 ^ (more - 1)) 6 =
      mul-le-mul_left ttl (omega (arith, grows)) in
    (omega (arith, h, low), omega (arith, high), omega arith, omega (arith, mono))
