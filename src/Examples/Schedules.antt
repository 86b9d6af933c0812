-- ===== src/Examples/Schedules.antt =====
-- Runs of the scheduler (app/services/scheduler_service.py).
use updatednitr.Prelude.{
  ◌≡◌, refl, inl, true, false, none, some, List, [], ◌∷◌, All, lookup, nat_eq, string_eq, arith,
  contains, Member,
}
use updatednitr.JobQueue.State.{init}
use updatednitr.Scheduler.Rows.{
  order_by_next, insert_by_next, Row, pending, is_due, select_due, claim_due_schedule_rows,
  failures_of,
}
use updatednitr.Scheduler.Cycle.{Setting, backs_off, enqueue_rows}
use updatednitr.Scheduler.Backoff.{fails, after_jobs, RecordsIn, after_jobs-streak}
use updatednitr.Scheduler.Refusals.{IsSupported, refused_counts}

abbrev row : Row
row = record {
  id = 1;
  user_id = 9;
  module_name = "inbox";
  last_synced_at = none;
  next_sync_at = 500;
  last_status = pending;
  last_error = none;
  consecutive_failures = 4;
  scheduler_claimed_at = none;
  updated_at = 0;
}

abbrev second : Row
second = record row { id = 2; next_sync_at = 400 }

abbrev table : List Row
table = second ∷ row ∷ []

abbrev setting : Setting
setting = record {
  now = 1000;
  circuit_open = false;
  max_queue_depth = 2;
  batch = 2;
  stale = 300;
  module_ttls = ("inbox", 14400) ∷ [];
  text_of = λ n. "1";
}

row_due : is_due 1000 300 row ≡ true
unfolding is_due
row_due = refl

row_selected : Member row (select_due 1100 300 2 (claim_due_schedule_rows 1000 300 1 table).0)
unfolding select_due claim_due_schedule_rows is_due order_by_next contains insert_by_next
row_selected = inl refl

row_failures : failures_of 1 table ≡ some 4
unfolding failures_of
row_failures = refl

after_jobs-streak_example :
    (failures_of 1 (after_jobs 1 (fails 1000 14400 "timeout" ∷ []) table) ≡ some 5)
    × RecordsIn 1 5 (after_jobs 1 (fails 1000 14400 "timeout" ∷ []) table)
after_jobs-streak_example = after_jobs-streak 1 4 (fails 1000 14400 "timeout") [] table row_failures

all-IsSupported : All IsSupported (claim_due_schedule_rows 1000 300 2 table).1
unfolding claim_due_schedule_rows select_due is_due lookup order_by_next insert_by_next
all-IsSupported = (("sync_inbox", refl), (("sync_inbox", refl), tt))

refused_counts_example :
    let (q', t') = enqueue_rows setting (row ∷ second ∷ []) (init 0 2) table in
    (q' ≡ init 0 2)
    × (failures_of 1 t' ≡ some 5)
    × RecordsIn 1 5 t'
    × (enqueue_rows setting (row ∷ second ∷ []) (init 0 2) table
        ≡ enqueue_rows setting (row ∷ []) (init 0 2) table)
    × (t' ≡ backs_off setting row "job_queue_full_during_enqueue" table)
unfolding init lookup
refused_counts_example =
    refused_counts setting row (second ∷ []) (init 0 2) table 4 ("sync_inbox", refl) (omega arith)
      row_failures
