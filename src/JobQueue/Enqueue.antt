-- ===== src/JobQueue/Enqueue.antt =====
-- enqueue() of app/nitris/job_queue.py. It awaits nothing but its lock and the put into an unbounded
-- queue, so it is one step.
use updatednitr.Prelude.{
  ℕ, suc, ◌*◌, String, true, Option, none, some, [], ◌∷◌, ◌++◌, leb, if◌then◌else◌, Dict, lookup,
  insert, nat_eq, string_eq,
}
use updatednitr.JobQueue.State.{
  Priority, high, medium, low, to_int, Exn, queue_saturated, queue_full, pending, done, Payload,
  Job, Queue, get_queue_depth, state_of, truthy,
}

pub record Request : Type 0 where
  pub job_type : String
  pub user_id : Option ℕ
  pub priority : Priority
  pub dedup_key : Option String
  pub payload : Payload

-- The future that the caller gets: that of a job in flight, or a new one; or RuntimeError.
pub data Reply : Type 0 where
  joined queued : (future : ℕ) → Reply
  refused : Exn → Reply

unfoldable pub admits : Priority → Queue → Option Exn
unfolding get_queue_depth
admits high q =
    if leb (q.max_queue_depth * 2) (get_queue_depth q) then some queue_saturated else none
admits medium q = if leb q.max_queue_depth (get_queue_depth q) then some queue_full else none
admits low q = if leb q.max_queue_depth (get_queue_depth q) then some queue_full else none

-- The future of a job in flight under this key, unless it is done.
unfoldable pub in_flight_future : Option String → Queue → Option ℕ
in_flight_future key q = elim (truthy key) [
  | none ↦ none
  | some k ↦ elim (lookup k q.in_flight) [
    | none ↦ none
    | some f ↦ if done (state_of f q) then none else some f
  ]
]

abbrev pub new_job : ℕ → Request → Queue → Job
new_job now r q = record {
  priority = to_int r.priority;
  created_at = now;
  job_type = r.job_type;
  user_id = r.user_id;
  dedup_key = r.dedup_key;
  payload = r.payload;
  future = q.next_future;
}

abbrev pub enter_flight : Option String → Queue → Dict String ℕ
enter_flight key q = elim (truthy key) [
  | none ↦ q.in_flight
  | some k ↦ insert k q.next_future q.in_flight
]

unfoldable pub put_lane : Priority → Job → Queue → Queue
put_lane high j q = record q { interactive_queue = q.interactive_queue ++ j ∷ [] }
put_lane medium j q = record q { background_queue = q.background_queue ++ j ∷ [] }
put_lane low j q = record q { background_queue = q.background_queue ++ j ∷ [] }

unfoldable pub put : ℕ → Request → Queue → Queue
unfolding put_lane
put now r q = put_lane r.priority (new_job now r q) (record q {
  futures = insert q.next_future pending q.futures;
  next_future = suc q.next_future;
  in_flight = enter_flight r.dedup_key q;
  job_event = true;
})

unfoldable pub enqueue : ℕ → Request → Queue → Queue × Reply
unfolding admits in_flight_future put
enqueue now r q = elim (admits r.priority q) [
  | some e ↦ (q, refused e)
  | none ↦ elim (in_flight_future r.dedup_key q) [
    | some f ↦ (q, joined f)
    | none ↦ (put now r q, queued q.next_future)
  ]
]
