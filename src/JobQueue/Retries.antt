-- ===== src/JobQueue/Retries.antt =====
-- Retries: how many there are, and what becomes of them.
use updatednitr.Prelude.{
  ℕ, ◌+◌, ◌<◌, ◌≡◌, refl, ◌≢◌, ◌⊎◌, inl, inr, String, Bool, true, false, ◌||◌, Option, none, some,
  arith, leb, if◌then◌else◌, nat_eq, string_eq, lookup, lookup-insert_self, lookup-erase_self,
  Option-cases,
}
use updatednitr.JobQueue.State.{
  Exn, Future, pending, result, exception, done, attempt_count, Job, Queue, state_of, truthy,
  settle, cleanup_dedup,
}
use updatednitr.JobQueue.Enqueue.{put}
use updatednitr.JobQueue.Worker.{
  Answer, returns, raises, is_permanent, Retry, retry_of, of_int, run_job, resume_retry,
  settle_retry, finish,
}
use updatednitr.JobQueue.Bounds.{depth, cap_of, depth-put}
use updatednitr.JobQueue.SingleFlight.{
  InFlight, enqueue-joins, enqueue-fresh, in_flight_future-none,
}

-- The job's future is done, and its key is free.
-- What is registered under a key.
abbrev pub in_flight_of : Option String → Queue → Option ℕ
in_flight_of key q = elim (truthy key) [ none ↦ none | some k ↦ lookup k q.in_flight ]

pub record IsSettled (j : Job) (q : Queue) : Type 0 where
  pub finished : done (state_of j.future q) ≡ true
  pub free : in_flight_of j.dedup_key q ≡ none

settle-done :
    (f : ℕ) (s : Future) (q : Queue) → done s ≡ true → done (state_of f (settle f s q)) ≡ true
unfolding settle
settle-done f s q h = ground (arith, lookup-insert_self f s q.futures)

futures-cleanup_dedup :
    (key : Option String) (q : Queue) → (cleanup_dedup key q).futures ≡ q.futures
unfolding cleanup_dedup
futures-cleanup_dedup key q = ground arith

cleanup_dedup_frees :
    (key : Option String) (k : String) (q : Queue)
    → truthy key ≡ some k
    → lookup k (cleanup_dedup key q).in_flight ≡ none
unfolding cleanup_dedup
cleanup_dedup_frees key k q h = ground (arith, lookup-erase_self k q.in_flight)

in_flight_of-cleanup :
    (key : Option String) (q : Queue) → in_flight_of key (cleanup_dedup key q) ≡ none
in_flight_of-cleanup key q = elim (Option-cases (truthy key)) [
  | inl e ↦ rw (e, in_flight_of) refl
  | inr (k, e) ↦ rw (e, in_flight_of) (cleanup_dedup_frees key k q e)
]

finish-IsSettled : (j : Job) (s : Future) (q : Queue) → done s ≡ true → IsSettled j (finish j s q)
finish-IsSettled j s q h = record {
  finished = rw (futures-cleanup_dedup j.dedup_key) (settle-done j.future s q h);
  free = in_flight_of-cleanup j.dedup_key (settle j.future s q);
}

-- What a run of a job may come to: a retry, or the end.
abbrev pub Retried : ℕ → Answer → Job → Queue → Queue × Option Retry → Type 0
Retried base_delay answer j q r =
    (e : Exn) × (answer ≡ raises e)
    × (is_permanent e ≡ false)
    × (attempt_count j.payload < q.max_retries)
    × (r ≡ (q, some (retry_of base_delay j)))

abbrev pub Ended : Job → Queue × Option Retry → Type 0
Ended j r = (r.1 ≡ none) × IsSettled j r.0

-- A job whose handler has ended is retried only for an error that is not permanent, and below the
-- configured number of retries; the state is as it was, and the retry carries a count one higher. In
-- every other case its future is done afterwards, and its key is free for new requests.
pub run_job_ends :
    (base_delay : ℕ) (answer : Answer) (j : Job) (q : Queue)
    → (Retried base_delay answer j q (run_job base_delay answer j q)
        × (attempt_count (retry_of base_delay j).request.payload ≡ attempt_count j.payload + 1))
      ⊎ Ended j (run_job base_delay answer j q)
unfolding run_job
run_job_ends base_delay answer j q = elim (Option-cases (lookup j.job_type q.handlers)) [
  | inl missing ↦ rw (missing, run_job) (inr (refl, finish-IsSettled j _ q refl))
  | inr (params, there) ↦ rw (there, run_job) (by_answer answer)
]
  where
    by_error :
        (e : Exn) (b : Bool)
        → (is_permanent e || leb q.max_retries (attempt_count j.payload)) ≡ b
        → (Retried base_delay
              (raises e)
              j
              q
              (if b then (finish j (exception e) q, none) else (q, some (retry_of base_delay j)))
            × (attempt_count (retry_of base_delay j).request.payload ≡ attempt_count j.payload + 1))
          ⊎ Ended j
              (if b then (finish j (exception e) q, none) else (q, some (retry_of base_delay j)))
    by_error e true h = inr (refl, finish-IsSettled j _ q refl)
    by_error e false h = inl ((e, refl, ground arith, ground arith, refl), refl)

    by_answer :
        (a : Answer)
        → (Retried base_delay a j q (elim a [
          | returns v ↦ (finish j (result v) q, none)
          | raises e ↦
              if is_permanent e || leb q.max_retries (attempt_count j.payload)
              then (finish j (exception e) q, none)
              else (q, some (retry_of base_delay j))
        ])
            × (attempt_count (retry_of base_delay j).request.payload ≡ attempt_count j.payload + 1))
          ⊎ Ended j (elim a [
            | returns v ↦ (finish j (result v) q, none)
            | raises e ↦
                if is_permanent e || leb q.max_retries (attempt_count j.payload)
                then (finish j (exception e) q, none)
                else (q, some (retry_of base_delay j))
          ])
    by_answer (returns v) = inr (refl, finish-IsSettled j _ q refl)
    by_answer (raises e) = by_error e _ refl

-- A retry under a key waits for itself. While the future of a keyed job is in flight and not done, and
-- the queue has room at the priority of the retry, the retry's own request joins that very future and
-- nothing is queued; as long as that future is pending, the task of the retry does not go on.
pub retry_joins_itself :
    (base_delay now : ℕ) (j : Job) (k : String) (q q' : Queue)
    → j.dedup_key ≡ some k
    → k ≢ ""
    → InFlight k j.future q
    → depth q < cap_of (of_int j.priority) q
    → state_of j.future q' ≡ pending
    → (resume_retry now (retry_of base_delay j) q ≡ (q, some j.future))
      × (settle_retry (retry_of base_delay j) j.future q' ≡ none)
unfolding resume_retry settle_retry
retry_joins_itself base_delay now j k q q' e h i room p = (
  ground (arith, enqueue-joins now (retry_of base_delay j).request k j.future q e h room i),
  ground arith,
)

settle_retry_answers :
    (r : Retry) (f : ℕ) (v : String) (q q' : Queue)
    → state_of f q ≡ result v
    → settle_retry r f q ≡ some q'
    → done (state_of r.original_future q') ≡ true
unfolding settle_retry
settle_retry_answers r f v q q' s e = ground (
  arith,
  futures-cleanup_dedup r.request.dedup_key (settle r.original_future (result v) q),
  settle-done r.original_future (result v) q,
)

-- A retry without a key is one more job in its lane, under a future of its own; once that future has
-- a result and the task has seen it, the future that the first caller waits for is done too.
pub retry_requeues :
    (base_delay now : ℕ) (j : Job) (q q' q'' : Queue) (v : String)
    → truthy j.dedup_key ≡ none
    → depth q < cap_of (of_int j.priority) q
    → state_of q.next_future q' ≡ result v
    → settle_retry (retry_of base_delay j) q.next_future q' ≡ some q''
    → (resume_retry now (retry_of base_delay j) q
        ≡ (put now (retry_of base_delay j).request q, some q.next_future))
      × (depth (put now (retry_of base_delay j).request q) ≡ depth q + 1)
      × (done (state_of j.future q'') ≡ true)
unfolding resume_retry
retry_requeues base_delay now j q q' q'' v e room s t = (
  ground (
    arith,
    enqueue-fresh now (retry_of base_delay j).request q (in_flight_future-none j.dedup_key q e)
        room,
  ),
  depth-put now (retry_of base_delay j).request q,
  settle_retry_answers (retry_of base_delay j) q.next_future v q' q'' s t,
)
