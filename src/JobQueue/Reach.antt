-- ===== src/JobQueue/Reach.antt =====
-- The depth of the queues over any sequence of steps of callers, workers and retries.
use updatednitr.Prelude.{
  ℕ, ◌+◌, ◌*◌, ◌≤◌, ◌<◌, ◌≡◌, refl, ◌≢◌, ◌⊎◌, inl, inr, String, Option, none, some, List, [], ◌∷◌,
  arith, length, if◌then◌else◌, Option-cases, string_eq,
}
use updatednitr.JobQueue.State.{
  Priority, high, medium, low, Future, Job, Queue, init, get_nowait, pop_least, job_lt, settle,
  cleanup_dedup, cancel_dedup, register_handler, exception, result, unknown_job_type, pending,
  cancelled, state_of,
}
use updatednitr.JobQueue.Enqueue.{Request, Reply, joined, queued, refused, enqueue}
use updatednitr.JobQueue.Worker.{
  Answer, returns, raises, Retry, run_job, resume_retry, settle_retry, take_interactive,
  take_background, take_shared, finish,
}
use updatednitr.JobQueue.Bounds.{depth, cap_of, enqueue_outcome, depth-put, background-put}

pub data Step : Queue → Queue → Type 0 where
  enqueues : (now : ℕ) (r : Request) (q : Queue) → Step q (enqueue now r q).0
  takes_interactive : (j : Job) {q q' : Queue} → take_interactive q ≡ some (j, q') → Step q q'
  takes_background : (j : Job) {q q' : Queue} → take_background q ≡ some (j, q') → Step q q'
  takes_shared : (q : Queue) → Step q (take_shared q).0
  runs :
      (base_delay : ℕ) (answer : Answer) (j : Job) (q : Queue)
      → Step q (run_job base_delay answer j q).0
  resumes : (now : ℕ) (r : Retry) (q : Queue) → Step q (resume_retry now r q).0
  settles : (r : Retry) (f : ℕ) {q q' : Queue} → settle_retry r f q ≡ some q' → Step q q'
  cancels : (k : String) (q : Queue) → Step q (cancel_dedup k q).0
  registers : (t : String) (n : ℕ) (q : Queue) → Step q (register_handler t n q)

pub data Steps (q : Queue) : Queue → Type 0 where
  here : Steps q q
  next : {r s : Queue} → Steps q r → Step r s → Steps q s

-- No more jobs pending than twice the depth, and no more in the background lane than the depth.
pub record IsBounded (q : Queue) : Type 0 where
  pub pending_jobs : depth q ≤ q.max_queue_depth * 2
  pub background_jobs : length q.background_queue ≤ q.max_queue_depth

-- `q'` has no more jobs than `q`, lane by lane.
pub record Shrinks (q q' : Queue) : Type 0 where
  interactive : length q'.interactive_queue ≤ length q.interactive_queue
  background : length q'.background_queue ≤ length q.background_queue
  cap : q'.max_queue_depth ≡ q.max_queue_depth

Shrinks-IsBounded : {q q' : Queue} → Shrinks q q' → IsBounded q → IsBounded q'
Shrinks-IsBounded s b = record {
  pending_jobs = omega (arith, s.interactive, s.background, s.cap, b.pending_jobs);
  background_jobs = omega (arith, s.background, s.cap, b.background_jobs);
}

Shrinks-trans : {q r s : Queue} → Shrinks q r → Shrinks r s → Shrinks q s
Shrinks-trans a b = record {
  interactive = omega (arith, a.interactive, b.interactive);
  background = omega (arith, a.background, b.background);
  cap = omega (arith, a.cap, b.cap);
}

length-pop_least : (j : Job) (ks : List Job) → length (pop_least j ks).1 ≡ length ks
unfolding pop_least
length-pop_least j [] = refl
length-pop_least j (k ∷ ks) = omega (arith, length-pop_least (if job_lt k j then k else j) ks)

length-get_nowait :
    (js rest : List Job) (j : Job) → get_nowait js ≡ some (j, rest) → length rest ≤ length js
unfolding get_nowait
length-get_nowait [] rest j e = cc
length-get_nowait (k ∷ ks) rest j e = ground (arith, length-pop_least k ks)

take_interactive-Shrinks :
    (j : Job) (q q' : Queue) → take_interactive q ≡ some (j, q') → Shrinks q q'
unfolding take_interactive
take_interactive-Shrinks j q q' e = elim (Option-cases (get_nowait q.interactive_queue)) [
  | inl n ↦ ground (arith, n)
  | inr ((k, rest), s) ↦ ground (arith, s, length-get_nowait q.interactive_queue rest k)
]

take_background-Shrinks : (j : Job) (q q' : Queue) → take_background q ≡ some (j, q') → Shrinks q q'
unfolding take_background
take_background-Shrinks j q q' e = elim (Option-cases (get_nowait q.background_queue)) [
  | inl n ↦ ground (arith, n)
  | inr ((k, rest), s) ↦ ground (arith, s, length-get_nowait q.background_queue rest k)
]

settle-Shrinks : (f : ℕ) (s : Future) (q : Queue) → Shrinks q (settle f s q)
unfolding settle
settle-Shrinks f s q = ground arith

cleanup_dedup-Shrinks : (k : Option String) (q : Queue) → Shrinks q (cleanup_dedup k q)
unfolding cleanup_dedup
cleanup_dedup-Shrinks k q = ground arith

cancel_dedup-Shrinks : (k : String) (q : Queue) → Shrinks q (cancel_dedup k q).0
unfolding cancel_dedup
cancel_dedup-Shrinks k q = ground arith

finish-Shrinks : (j : Job) (s : Future) (q : Queue) → Shrinks q (finish j s q)
finish-Shrinks j s q =
    Shrinks-trans (settle-Shrinks j.future s q) (cleanup_dedup-Shrinks j.dedup_key _)

Shrinks-refl : (q : Queue) → Shrinks q q
Shrinks-refl q = record { interactive = omega arith; background = omega arith; cap = refl }

take_shared-Shrinks : (q : Queue) → Shrinks q (take_shared q).0
unfolding take_shared
take_shared-Shrinks q = elim (Option-cases (get_nowait q.interactive_queue)) [
  | inr ((j, rest), s) ↦ ground (arith, s, length-get_nowait q.interactive_queue rest j)
  | inl n ↦ elim (Option-cases (get_nowait q.background_queue)) [
    | inl m ↦ ground (arith, n, m)
    | inr ((j, rest), s) ↦ ground (arith, n, s, length-get_nowait q.background_queue rest j)
  ]
]

run_job-Shrinks : (base : ℕ) (a : Answer) (j : Job) (q : Queue) → Shrinks q (run_job base a j q).0
unfolding run_job
run_job-Shrinks base (returns v) j q = ground (
  arith,
  finish-Shrinks j (result v) q,
  finish-Shrinks j (exception (unknown_job_type j.job_type)) q,
)
run_job-Shrinks base (raises e) j q = ground (
  arith,
  finish-Shrinks j (exception e) q,
  finish-Shrinks j (exception (unknown_job_type j.job_type)) q,
)

put-IsBounded :
    {q q' : Queue} (p : Priority)
    → depth q < cap_of p q
    → depth q' ≡ depth q + 1
    → (q'.max_queue_depth ≡ q.max_queue_depth)
      × (((p ≡ high) × (length q'.background_queue ≡ length q.background_queue))
          ⊎ ((p ≢ high) × (length q'.background_queue ≡ length q.background_queue + 1)))
    → IsBounded q
    → IsBounded q'
put-IsBounded high room d b i = ground arith
put-IsBounded medium room d b i = ground arith
put-IsBounded low room d b i = ground arith

enqueue-IsBounded :
    (now : ℕ) (r : Request) (q : Queue) → IsBounded q → IsBounded (enqueue now r q).0
enqueue-IsBounded now r q b = elim (enqueue_outcome now r q) [
  | inl (_, _, same) ↦ rw same b
  | inr (inl (_, (_, _, same))) ↦ rw same b
  | inr (inr (room, _, _, same)) ↦
      rw same (put-IsBounded r.priority room (depth-put now r q) (background-put now r q) b)
]

settle_retry-Shrinks :
    (r : Retry) (f : ℕ) (q q' : Queue) → settle_retry r f q ≡ some q' → Shrinks q q'
unfolding settle_retry
settle_retry-Shrinks r f q q' e = go (state_of f q) e
  where
    answered :
        (s : Future) → Shrinks q (cleanup_dedup r.request.dedup_key (settle r.original_future s q))
    answered s =
        Shrinks-trans (settle-Shrinks r.original_future s q)
          (cleanup_dedup-Shrinks r.request.dedup_key _)

    go :
        (s : Future)
        → (elim s as (λ _. Option Queue) [
          | pending ↦ none
          | cancelled ↦ some (cleanup_dedup r.request.dedup_key q)
          | result v ↦
              some (cleanup_dedup r.request.dedup_key (settle r.original_future (result v) q))
          | exception x ↦
              some (cleanup_dedup r.request.dedup_key (settle r.original_future (exception x) q))
        ])
          ≡ some q'
        → Shrinks q q'
    go pending h = cc
    go cancelled h = ground (arith, cleanup_dedup-Shrinks r.request.dedup_key q)
    go (result v) h = ground (arith, answered (result v))
    go (exception x) h = ground (arith, answered (exception x))

resume_retry-IsBounded :
    (now : ℕ) (r : Retry) (q : Queue) → IsBounded q → IsBounded (resume_retry now r q).0
unfolding resume_retry
resume_retry-IsBounded now r q b =
    go (enqueue now r.request q).1 (enqueue-IsBounded now r.request q b)
  where
    go :
        (reply : Reply) {q' : Queue}
        → IsBounded q'
        → IsBounded
            (elim reply as (λ _. Queue × Option ℕ) [
              | joined f ↦ (q', some f)
              | queued f ↦ (q', some f)
              | refused e ↦ (
                cleanup_dedup r.request.dedup_key (settle r.original_future (exception e) q'),
                none,
              )
            ]).0
    go (joined f) b' = b'
    go (queued f) b' = b'
    go (refused e) b' =
        Shrinks-IsBounded
          (Shrinks-trans (settle-Shrinks r.original_future (exception e) _)
            (cleanup_dedup-Shrinks r.request.dedup_key _))
          b'

Step-IsBounded : {q r : Queue} → Step q r → IsBounded q → IsBounded r
unfolding register_handler
Step-IsBounded (enqueues now r q) b = enqueue-IsBounded now r q b
Step-IsBounded (takes_interactive j {q} {q'} e) b =
    Shrinks-IsBounded (take_interactive-Shrinks j q q' e) b
Step-IsBounded (takes_background j {q} {q'} e) b =
    Shrinks-IsBounded (take_background-Shrinks j q q' e) b
Step-IsBounded (takes_shared q) b = Shrinks-IsBounded (take_shared-Shrinks q) b
Step-IsBounded (runs base a j q) b = Shrinks-IsBounded (run_job-Shrinks base a j q) b
Step-IsBounded (resumes now r q) b = resume_retry-IsBounded now r q b
Step-IsBounded (settles r f {q} {q'} e) b = Shrinks-IsBounded (settle_retry-Shrinks r f q q' e) b
Step-IsBounded (cancels k q) b = Shrinks-IsBounded (cancel_dedup-Shrinks k q) b
Step-IsBounded (registers t n q) b = record {
  pending_jobs = b.pending_jobs;
  background_jobs = b.background_jobs;
}

Steps-IsBounded : {q r : Queue} → Steps q r → IsBounded q → IsBounded r
Steps-IsBounded here b = b
Steps-IsBounded (next ss s) b = Step-IsBounded s (Steps-IsBounded ss b)

-- From an empty queue, whatever callers, workers and retries do and in whatever order: no more jobs
-- are pending than twice the configured depth, and no more in the background lane than the depth.
pub Steps-init-IsBounded :
    (max_queue_depth max_retries : ℕ) {q : Queue}
    → Steps (init max_queue_depth max_retries) q
    → IsBounded q
unfolding init
Steps-init-IsBounded max_queue_depth max_retries ss =
    Steps-IsBounded ss (record { pending_jobs = omega arith; background_jobs = omega arith })
