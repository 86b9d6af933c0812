-- ===== src/JobQueue/Worker.antt =====
-- _worker_loop, _shared_worker_loop, _run_job and _schedule_retry of app/nitris/job_queue.py, cut
-- where they await: taking a job, the end of its handler, the end of a backoff, and the end of the
-- wait for a retried job.
use updatednitr.Prelude.{
  ℕ, ◌+◌, ◌*◌, ◌^◌, String, Bool, true, false, ◌||◌, Option, none, some, leb, if◌then◌else◌, lookup,
  nat_eq, string_eq, nat_beq,
}
use updatednitr.JobQueue.State.{
  Priority, high, medium, low, Exn, unknown_job_type, queue_saturated, queue_full, login_error,
  credentials_quarantined, login_unavailable, other, Future, pending, cancelled, result, exception,
  Payload, attempt_count, Job, Queue, get_nowait, state_of, settle, cleanup_dedup,
}
use updatednitr.JobQueue.Enqueue.{Request, joined, queued, refused, enqueue}

-- `queue.get()` of a worker of one lane; `none` waits.
unfoldable pub take_interactive : Queue → Option (Job × Queue)
take_interactive q = elim (get_nowait q.interactive_queue) [
  | none ↦ none
  | some (j, rest) ↦ some (j, record q { interactive_queue = rest })
]

unfoldable pub take_background : Queue → Option (Job × Queue)
take_background q = elim (get_nowait q.background_queue) [
  | none ↦ none
  | some (j, rest) ↦ some (j, record q { background_queue = rest })
]

-- A round of the shared worker: interactive jobs first. With both queues empty it clears the event,
-- looks again, and waits.
unfoldable pub take_shared : Queue → Queue × Option Job
unfolding take_interactive take_background
take_shared q = elim (take_interactive q) [
  | some (j, q') ↦ (q', some j)
  | none ↦ elim (take_background q) [
    | some (j, q') ↦ (q', some j)
    | none ↦ (record q { job_event = false }, none)
  ]
]

-- How a handler ends.
pub data Answer : Type 0 where
  returns : String → Answer
  raises : Exn → Answer

unfoldable pub is_permanent : Exn → Bool
is_permanent login_error = true
is_permanent credentials_quarantined = true
is_permanent login_unavailable = true
is_permanent (unknown_job_type t) = false
is_permanent queue_saturated = false
is_permanent queue_full = false
is_permanent (other m) = false

-- A task of _schedule_retry: the request that it makes after the backoff, and whom it answers.
pub record Retry : Type 0 where
  pub request : Request
  pub backoff : ℕ
  pub original_future : ℕ

-- Priority(priority) of a job's number.
abbrev pub of_int : ℕ → Priority
of_int n = if nat_beq n 1 then high else if nat_beq n 2 then medium else low

abbrev pub next_payload : Payload → Payload
next_payload p = record p { retry_attempt = some (attempt_count p + 1) }

abbrev pub retry_of : (base_delay : ℕ) → Job → Retry
retry_of base_delay j = record {
  request = record {
    job_type = j.job_type;
    user_id = j.user_id;
    priority = of_int j.priority;
    dedup_key = j.dedup_key;
    payload = next_payload j.payload;
  };
  backoff = base_delay * 2 ^ attempt_count j.payload;
  original_future = j.future;
}

abbrev pub finish : Job → Future → Queue → Queue
finish j s q = cleanup_dedup j.dedup_key (settle j.future s q)

-- _run_job: the new state, and the retry task that it spawns.
unfoldable pub run_job : (base_delay : ℕ) → Answer → Job → Queue → Queue × Option Retry
unfolding is_permanent
run_job base_delay answer j q = elim (lookup j.job_type q.handlers) [
  | none ↦ (finish j (exception (unknown_job_type j.job_type)) q, none)
  | some params ↦ elim answer [
    | returns v ↦ (finish j (result v) q, none)
    | raises e ↦
        if is_permanent e || leb q.max_retries (attempt_count j.payload)
        then (finish j (exception e) q, none)
        else (q, some (retry_of base_delay j))
  ]
]

-- _schedule_retry after its sleep: the request is made, and the task waits for the future that it
-- gets, or hands the refusal on and ends.
unfoldable pub resume_retry : ℕ → Retry → Queue → Queue × Option ℕ
resume_retry now r q =
    let (q', reply) = enqueue now r.request q in
    elim reply [
      | joined f ↦ (q', some f)
      | queued f ↦ (q', some f)
      | refused e ↦
          (cleanup_dedup r.request.dedup_key (settle r.original_future (exception e) q'), none)
    ]

-- The task when the future `f` that it waits for is done; `none` while it is not. A cancelled
-- future raises CancelledError, which `except Exception` does not catch.
unfoldable pub settle_retry : Retry → ℕ → Queue → Option Queue
settle_retry r f q = elim (state_of f q) [
  | pending ↦ none
  | cancelled ↦ some (cleanup_dedup r.request.dedup_key q)
  | result v ↦ some (cleanup_dedup r.request.dedup_key (settle r.original_future (result v) q))
  | exception e ↦
      some (cleanup_dedup r.request.dedup_key (settle r.original_future (exception e) q))
]
