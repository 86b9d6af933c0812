-- ===== src/Examples/Sessions.antt =====
-- Runs of the session pool (app/nitris/session_pool.py).
use updatednitr.Prelude.{◌≡◌, refl, true, false, none, some, [], ◌∷◌, arith, lookup, nat_eq}
use updatednitr.SessionPool.{Entry, Pool, close, enter, leave, auth_fault}
use updatednitr.SessionPool.Places.{IsPlace}
use updatednitr.SessionPool.Locked.{enter_spares_locked}
use updatednitr.SessionPool.Stale.{stale_job_logs_out}

abbrev busy : Entry
busy = record { user_id = 5; expires = 90; needs_login = false; locked = true; logged_out = false }

abbrev dropped : Entry
dropped = record busy { logged_out = true }

-- User 5 has the entry 1; the entry 0 was dropped while a job waited for it.
abbrev sessions : Pool
sessions = record { pool = (5, 1) ∷ []; entries = (0, dropped) ∷ (1, busy) ∷ []; next_entry = 2 }

place : IsPlace sessions (5, 1)
unfolding lookup
place = record { there = refl; entry = busy; stored = refl; owned = refl }

enter_spares_locked_example : lookup 1 (enter 100 1800 1 6 sessions).0.entries ≡ some busy
unfolding lookup
enter_spares_locked_example =
    enter_spares_locked 100 1800 1 6 1 busy sessions (place, tt) (omega arith) refl refl

stale_job_logs_out_example :
    let p' = leave 100 1800 5 0 auth_fault sessions in
    (lookup 1 p'.entries ≡ some (close busy)) × (lookup 5 p'.pool ≡ none)
unfolding lookup
stale_job_logs_out_example =
    stale_job_logs_out 100 1800 5 0 1 busy sessions (omega arith) refl refl refl
