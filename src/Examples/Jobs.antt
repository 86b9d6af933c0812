-- ===== src/Examples/Jobs.antt =====
-- Runs of the job queue (app/nitris/job_queue.py).
use updatednitr.Prelude.{
  ◌≡◌, refl, true, none, some, [], ◌∷◌, lookup, insert, string_eq, nat_eq, arith,
}
use updatednitr.JobQueue.State.{low, Job, Queue, init, pending, result}
use updatednitr.JobQueue.Enqueue.{Request, enqueue, joined, queued}
use updatednitr.JobQueue.Worker.{resume_retry, settle_retry, retry_of}
use updatednitr.JobQueue.SingleFlight.{InFlight, single_flight}
use updatednitr.JobQueue.Retries.{retry_joins_itself}
use updatednitr.JobQueue.Reach.{here, next, enqueues, IsBounded, Steps-init-IsBounded}

abbrev sync : Request
sync = record {
  job_type = "sync_inbox";
  user_id = some 5;
  priority = low;
  dedup_key = some "inbox:5";
  payload = record { retry_attempt = none; rest = [] };
}

abbrev job : Job
job = record {
  priority = 3;
  created_at = 10;
  job_type = "sync_inbox";
  user_id = some 5;
  dedup_key = some "inbox:5";
  payload = record { retry_attempt = none; rest = [] };
  future = 0;
}

abbrev urgent : Job
urgent = record job { priority = 1; created_at = 20; dedup_key = none; future = 1 }

-- The job runs: it has left its lane, and its future is pending.
abbrev running : Queue
running = record {
  max_queue_depth = 10;
  max_retries = 2;
  interactive_queue = [];
  background_queue = [];
  job_event = true;
  handlers = ("sync_inbox", 1) ∷ [];
  in_flight = ("inbox:5", 0) ∷ [];
  futures = (0, pending) ∷ [];
  next_future = 1;
  running = true;
}

first_queued : (enqueue 1 sync (init 10 2)).1 ≡ queued 0
unfolding enqueue init lookup
first_queued = refl

single_flight_example :
    enqueue 2 sync (enqueue 1 sync (init 10 2)).0 ≡ ((enqueue 1 sync (init 10 2)).0, joined 0)
unfolding enqueue init lookup insert
single_flight_example =
    single_flight 1 2 sync sync "inbox:5" (init 10 2) refl refl (λ e. cc) first_queued (omega arith)

in_flight : InFlight "inbox:5" 0 running
unfolding lookup
in_flight = record { registered = refl; unfinished = refl }

retry_joins_itself_example :
    (resume_retry 40 (retry_of 3 job) running ≡ (running, some 0))
    × (settle_retry (retry_of 3 job) 0 running ≡ none)
unfolding lookup
retry_joins_itself_example =
    retry_joins_itself 3 40 job "inbox:5" running running refl (λ e. cc) in_flight (omega arith)
      refl

abbrev unkeyed : Job
unkeyed = record job { dedup_key = none }

-- The retry's own future, of number 1, has a result.
abbrev answered : Queue
answered = record running { futures = (0, pending) ∷ (1, result "ok") ∷ [] }

abbrev answered_both : Queue
answered_both = record answered { futures = (0, result "ok") ∷ (1, result "ok") ∷ [] }

Steps-init-IsBounded_example : IsBounded (enqueue 1 sync (init 10 2)).0
Steps-init-IsBounded_example = Steps-init-IsBounded 10 2 (next here (enqueues 1 sync (init 10 2)))
