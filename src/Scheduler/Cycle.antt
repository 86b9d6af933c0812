-- ===== src/Scheduler/Cycle.antt =====
-- One turn of run_scheduler_loop of app/services/scheduler_service.py, with the job queue of
-- app/nitris/job_queue.py. Its enqueue never raises NitrisCircuitOpenError, so the branch for that
-- error has no counterpart here.
use updatednitr.Prelude.{
  ℕ, String, Bool, true, false, none, some, List, [], ◌∷◌, leb, if◌then◌else◌, Dict, lookup,
  string_eq,
}
use updatednitr.JobQueue.State.{low, Queue, get_queue_depth}
use updatednitr.JobQueue.Enqueue.{Request, Reply, joined, queued, refused, enqueue}
use updatednitr.Scheduler.Rows.{Row, claim_due_schedule_rows, update_schedule_failure, ttl_of}

-- What a turn depends on: the tunables, the time, and whether the circuit of the gateway is open. The
-- payload of a job has texts in the model: `text_of` gives that of a schedule id.
pub record Setting : Type 0 where
  pub now : ℕ
  pub circuit_open : Bool
  pub max_queue_depth : ℕ
  pub batch : ℕ
  pub stale : ℕ
  pub module_ttls : Dict String ℕ
  pub text_of : ℕ → String

abbrev pub supported_module_jobs : Dict String String
supported_module_jobs = ("attendance", "sync_attendance") ∷ ("inbox", "sync_inbox") ∷ []

abbrev pub sync_request : Setting → Row → String → Request
sync_request s r job_type = record {
  job_type = job_type;
  user_id = some r.user_id;
  priority = low;
  dedup_key = none;
  payload = record {
    retry_attempt = none;
    rest = ("schedule_id", s.text_of r.id) ∷ ("module_name", r.module_name) ∷ [];
  };
}

abbrev pub backs_off : Setting → Row → String → List Row → List Row
backs_off s r error_msg =
    update_schedule_failure s.now (ttl_of s.module_ttls r.module_name) r.id error_msg

-- What follows the enqueue of a row: the table, and whether the loop goes on.
unfoldable pub after_enqueue : Setting → Row → Reply → List Row → List Row × Bool
after_enqueue s r (joined f) t = (t, true)
after_enqueue s r (queued f) t = (t, true)
after_enqueue s r (refused e) t = (backs_off s r "job_queue_full_during_enqueue" t, false)

-- The body of `for row in claimed`.
unfoldable pub enqueue_row : Setting → Row → Queue → List Row → Queue × List Row × Bool
unfolding after_enqueue
enqueue_row s r q t = elim (lookup r.module_name supported_module_jobs) [
  | none ↦ (q, backs_off s r "unsupported_module" t, true)
  | some job_type ↦
      let (q', reply) = enqueue s.now (sync_request s r job_type) q in
      let (t', goes_on) = after_enqueue s r reply t in (q', t', goes_on)
]

unfoldable pub enqueue_rows : Setting → List Row → Queue → List Row → Queue × List Row
enqueue_rows s [] q t = (q, t)
enqueue_rows s (r ∷ rs) q t =
    let (q', t', goes_on) = enqueue_row s r q t in
    let rest = enqueue_rows s rs q' t' in if goes_on then rest else (q', t')

-- A turn: the queue and the table after it, and the rows that it claimed.
unfoldable pub scheduler_cycle : Setting → Queue → List Row → Queue × List Row × List Row
unfolding enqueue_rows
scheduler_cycle s q t =
    if s.circuit_open
    then (q, t, [])
    else if leb s.max_queue_depth (get_queue_depth q)
    then (q, t, [])
    else (let (t', claimed) = claim_due_schedule_rows s.now s.stale s.batch t in
        let (q', t'') = enqueue_rows s claimed q t' in (q', t'', claimed))
