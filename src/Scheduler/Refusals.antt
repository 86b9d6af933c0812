-- ===== src/Scheduler/Refusals.antt =====
-- When a turn of app/services/scheduler_service.py has a sync refused by the job queue, and what it
-- then does to the row.
use updatednitr.Prelude.{
  ℕ, suc, ◌+◌, ◌≤◌, ◌<◌, ◌≡◌, refl, ap, ◌∙◌, ◌⊎◌, inl, inr, String, Bool, true, false, some, List,
  [], ◌∷◌, arith, leb, if◌then◌else◌, nat_eq, string_eq, All, length, lookup, lt→leb_false, le→leb,
  map,
}
use updatednitr.JobQueue.State.{Queue, get_queue_depth, queue_full}
use updatednitr.JobQueue.Enqueue.{Reply, queued, refused, enqueue, put, admits, in_flight_future}
use updatednitr.JobQueue.Bounds.{depth, depth-put, background-put}
use updatednitr.Scheduler.Claims.{length-select_due}
use updatednitr.Scheduler.Backoff.{fails, one_job, RecordsIn, update_schedule_after_job}
use updatednitr.Scheduler.Rows.{
  claim_row, Row, claim_due_schedule_rows, ttl_of, select_due, failures_of,
}
use updatednitr.Scheduler.Cycle.{
  Setting, supported_module_jobs, sync_request, backs_off, after_enqueue, enqueue_row, enqueue_rows,
  scheduler_cycle,
}

-- The row's module has a job type.
abbrev pub IsSupported : Row → Type 0
IsSupported r = (job_type : String) × (lookup r.module_name supported_module_jobs ≡ some job_type)

sync_queued :
    (s : Setting) (r : Row) (job_type : String) (q : Queue)
    → depth q < q.max_queue_depth
    → enqueue s.now (sync_request s r job_type) q
      ≡ (put s.now (sync_request s r job_type) q, queued q.next_future)
unfolding enqueue admits in_flight_future get_queue_depth
sync_queued s r job_type q h = rw (lt→leb_false q.max_queue_depth (depth q) h, enqueue, admits) refl

sync_refused :
    (s : Setting) (r : Row) (job_type : String) (q : Queue)
    → q.max_queue_depth ≤ depth q
    → enqueue s.now (sync_request s r job_type) q ≡ (q, refused queue_full)
unfolding enqueue admits get_queue_depth
sync_refused s r job_type q h = rw (le→leb q.max_queue_depth (depth q) h, enqueue, admits) refl

-- What the body of the loop comes to for a supported row.
enqueue_row-supported :
    (s : Setting) (r : Row) (q : Queue) (t : List Row) (job_type : String)
    → lookup r.module_name supported_module_jobs ≡ some job_type
    → enqueue_row s r q t ≡ (
      (enqueue s.now (sync_request s r job_type) q).0,
      (after_enqueue s r (enqueue s.now (sync_request s r job_type) q).1 t).0,
      (after_enqueue s r (enqueue s.now (sync_request s r job_type) q).1 t).1,
    )
unfolding enqueue_row
enqueue_row-supported s r q t job_type e = rw (e, enqueue_row) refl

enqueue_row-queues :
    (s : Setting) (r : Row) (q : Queue) (t : List Row) (job_type : String)
    → lookup r.module_name supported_module_jobs ≡ some job_type
    → depth q < q.max_queue_depth
    → enqueue_row s r q t ≡ (put s.now (sync_request s r job_type) q, t, true)
unfolding after_enqueue
enqueue_row-queues s r q t job_type e h =
    enqueue_row-supported s r q t job_type e
    ∙ ap (λ (x : Queue × Reply). (x.0, (after_enqueue s r x.1 t).0, (after_enqueue s r x.1 t).1))
        (sync_queued s r job_type q h)

enqueue_row-refused :
    (s : Setting) (r : Row) (q : Queue) (t : List Row) (job_type : String)
    → lookup r.module_name supported_module_jobs ≡ some job_type
    → q.max_queue_depth ≤ depth q
    → enqueue_row s r q t ≡ (q, backs_off s r "job_queue_full_during_enqueue" t, false)
unfolding after_enqueue
enqueue_row-refused s r q t job_type e h =
    enqueue_row-supported s r q t job_type e
    ∙ ap (λ (x : Queue × Reply). (x.0, (after_enqueue s r x.1 t).0, (after_enqueue s r x.1 t).1))
        (sync_refused s r job_type q h)

-- With room for all of them, all the rows are put into the queue, and none is backed off.
enqueue_rows-queue :
    (s : Setting) (rs : List Row) (q : Queue) (t : List Row)
    → All IsSupported rs
    → depth q + length rs ≤ q.max_queue_depth
    → ((enqueue_rows s rs q t).1 ≡ t) × (depth (enqueue_rows s rs q t).0 ≡ depth q + length rs)
unfolding enqueue_rows
enqueue_rows-queue s [] q t u h = (refl, omega arith)
enqueue_rows-queue s (r ∷ rs) q t u h =
    let (job_type, e) = u.0 in
    let q' : Queue = put s.now (sync_request s r job_type) q in
    let d : depth q' ≡ depth q + 1 = depth-put s.now (sync_request s r job_type) q in
    let cap : q'.max_queue_depth ≡ q.max_queue_depth =
      (background-put s.now (sync_request s r job_type) q).0 in
    let (same, deeper) = enqueue_rows-queue s rs q' t u.1 (omega (arith, d, cap, h)) in
    rw (enqueue_row-queues s r q t job_type e (omega (arith, h)), enqueue_rows)
      (same, omega (arith, deeper, d))

length-map : (f : Row → Row) (rs : List Row) → length (map f rs) ≡ length rs
length-map f [] = refl
length-map f (r ∷ rs) = ap suc (length-map f rs)

length-claimed :
    (now stale batch : ℕ) (t : List Row)
    → length (claim_due_schedule_rows now stale batch t).1 ≤ batch
unfolding claim_due_schedule_rows
length-claimed now stale batch t = omega (
  arith,
  length-select_due now stale batch t,
  length-map (claim_row now) (select_due now stale batch t),
)

-- The turn ended with a job more for every row that it claimed, and the table as the claim left it.
abbrev pub IsQueued : Setting → Queue → List Row → Queue × List Row × List Row → Type 0
IsQueued s q t (q', t', claimed) =
    (depth q' ≡ depth q + length claimed)
    × (((t' ≡ t) × (claimed ≡ []))
        ⊎ ((t' ≡ (claim_due_schedule_rows s.now s.stale s.batch t).0)
            × (claimed ≡ (claim_due_schedule_rows s.now s.stale s.batch t).1)))

-- With room for a batch above SCHEDULER_MAX_QUEUE_DEPTH, a turn has no sync refused: when the modules
-- of the rows it claims have job types, the table is as the claim left it, and the queue has a job
-- more for every claimed row.
pub scheduler_cycle-queues :
    (s : Setting) (q : Queue) (t : List Row)
    → s.max_queue_depth + s.batch ≤ q.max_queue_depth
    → All IsSupported (claim_due_schedule_rows s.now s.stale s.batch t).1
    → IsQueued s q t (scheduler_cycle s q t)
unfolding scheduler_cycle get_queue_depth
scheduler_cycle-queues s q t h u =
    go s.circuit_open (leb s.max_queue_depth (get_queue_depth q)) refl
  where
    t₁ : List Row
    t₁ = (claim_due_schedule_rows s.now s.stale s.batch t).0

    got : List Row
    got = (claim_due_schedule_rows s.now s.stale s.batch t).1

    full_turn : Queue × List Row × List Row
    full_turn = ((enqueue_rows s got q t₁).0, (enqueue_rows s got q t₁).1, got)

    go :
        (skips full : Bool)
        → leb s.max_queue_depth (get_queue_depth q) ≡ full
        → IsQueued s q t (if skips then (q, t, []) else if full then (q, t, []) else full_turn)
    go true full e = (omega arith, inl (refl, refl))
    go false true e = (omega arith, inl (refl, refl))
    go false false e =
        let fits : depth q + length got ≤ q.max_queue_depth =
          ground (arith, length-claimed s.now s.stale s.batch t, h, e) in
        let (same, deeper) = enqueue_rows-queue s got q t₁ u fits in (deeper, inr (same, refl))

-- A sync that the queue refuses counts as a failure of the row: the row records one failure more, so
-- it is disabled if that is the fifth in a row. The rest of the batch is not tried in this turn: what
-- follows in it makes no difference, and no job is queued.
pub refused_counts :
    (s : Setting) (r : Row) (rs : List Row) (q : Queue) (t : List Row) (n : ℕ)
    → IsSupported r
    → q.max_queue_depth ≤ depth q
    → failures_of r.id t ≡ some n
    → let (q', t') = enqueue_rows s (r ∷ rs) q t in
      (q' ≡ q)
      × (failures_of r.id t' ≡ some (n + 1))
      × RecordsIn r.id (n + 1) t'
      × (enqueue_rows s (r ∷ rs) q t ≡ enqueue_rows s (r ∷ []) q t)
      × (t' ≡ backs_off s r "job_queue_full_during_enqueue" t)
unfolding enqueue_rows update_schedule_after_job
refused_counts s r rs q t n (job_type, e) h f =
    rw (enqueue_row-refused s r q t job_type e h, enqueue_rows)
      (let (a, b) =
          one_job r.id n
            (fails s.now (ttl_of s.module_ttls r.module_name) "job_queue_full_during_enqueue") t
            f in
        (refl, a, b, refl, refl))
