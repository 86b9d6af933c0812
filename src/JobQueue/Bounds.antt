-- ===== src/JobQueue/Bounds.antt =====
-- The depth of the queues: who is admitted, and what can never be exceeded.
use updatednitr.Prelude.{
  ℕ, ◌+◌, ◌*◌, ◌≤◌, ◌<◌, ◌≡◌, refl, ◌≢◌, ◌⊎◌, inl, inr, none, some, [], ◌∷◌, arith, length,
  length-append, Option-cases,
}
use updatednitr.JobQueue.State.{
  Priority, high, medium, low, Exn, queue_saturated, queue_full, Job, Queue,
}
use updatednitr.JobQueue.Enqueue.{
  Request, joined, queued, refused, enqueue, admits, in_flight_future, put, put_lane, new_job,
}

abbrev pub depth : Queue → ℕ
depth q = length q.interactive_queue + length q.background_queue

depth-put_lane : (p : Priority) (j : Job) (q : Queue) → depth (put_lane p j q) ≡ depth q + 1
unfolding put_lane
depth-put_lane high j q = omega (arith, length-append q.interactive_queue (j ∷ []))
depth-put_lane medium j q = omega (arith, length-append q.background_queue (j ∷ []))
depth-put_lane low j q = omega (arith, length-append q.background_queue (j ∷ []))

background-put_lane :
    (p : Priority) (j : Job) (q : Queue)
    → p ≢ high
    → length (put_lane p j q).background_queue ≡ length q.background_queue + 1
unfolding put_lane
background-put_lane high j q h = absurd (h refl)
background-put_lane medium j q h = omega (arith, length-append q.background_queue (j ∷ []))
background-put_lane low j q h = omega (arith, length-append q.background_queue (j ∷ []))

-- A put adds one job: to the interactive lane if the request is HIGH, else to the background's.
pub put_lane-caps :
    (p : Priority) (j : Job) (q : Queue)
    → ((put_lane p j q).max_queue_depth ≡ q.max_queue_depth)
      × (((p ≡ high) × (length (put_lane p j q).background_queue ≡ length q.background_queue))
          ⊎ ((p ≢ high)
              × (length (put_lane p j q).background_queue ≡ length q.background_queue + 1)))
unfolding put_lane
put_lane-caps high j q = (refl, inl (refl, refl))
put_lane-caps medium j q = (refl, inr (λ e. cc, background-put_lane medium j q (λ e. cc)))
put_lane-caps low j q = (refl, inr (λ e. cc, background-put_lane low j q (λ e. cc)))

pub background-put :
    (now : ℕ) (r : Request) (q : Queue)
    → ((put now r q).max_queue_depth ≡ q.max_queue_depth)
      × (((r.priority ≡ high) × (length (put now r q).background_queue ≡ length q.background_queue))
          ⊎ ((r.priority ≢ high)
              × (length (put now r q).background_queue ≡ length q.background_queue + 1)))
unfolding put
background-put now r q = put_lane-caps r.priority (new_job now r q) _

pub depth-put : (now : ℕ) (r : Request) (q : Queue) → depth (put now r q) ≡ depth q + 1
unfolding put
depth-put now r q = depth-put_lane r.priority (new_job now r q) _

-- The bound that applies to a request.
abbrev pub cap_of : Priority → Queue → ℕ
cap_of high q = q.max_queue_depth * 2
cap_of medium q = q.max_queue_depth
cap_of low q = q.max_queue_depth

abbrev pub refusal : Priority → Exn
refusal high = queue_saturated
refusal medium = queue_full
refusal low = queue_full

pub admits_lem :
    (p : Priority) (q : Queue)
    → ((cap_of p q ≤ depth q) × (admits p q ≡ some (refusal p)))
      ⊎ ((depth q < cap_of p q) × (admits p q ≡ none))
unfolding admits
admits_lem high q = ground arith
admits_lem medium q = ground arith
admits_lem low q = ground arith

-- A request is refused exactly when the jobs pending in both lanes have reached its bound, twice the
-- configured depth for HIGH and the depth itself for the others, and a refusal changes nothing.
-- Else it joins a job in flight, which changes nothing either, or adds one job under a new future.
pub enqueue_outcome :
    (now : ℕ) (r : Request) (q : Queue)
    → let (q', reply) = enqueue now r q in
      ((cap_of r.priority q ≤ depth q) × (reply ≡ refused (refusal r.priority)) × (q' ≡ q))
      ⊎ ((depth q < cap_of r.priority q) × ((f : ℕ) × (reply ≡ joined f) × (q' ≡ q)))
      ⊎ ((depth q < cap_of r.priority q)
          × (reply ≡ queued q.next_future)
          × (depth q' ≡ depth q + 1)
          × (q' ≡ put now r q))
unfolding enqueue
enqueue_outcome now r q = elim (admits_lem r.priority q) [
  | inl (over, e) ↦ rw (e, enqueue) (inl (over, refl, refl))
  | inr (room, e) ↦ elim (Option-cases (in_flight_future r.dedup_key q)) [
    | inl fresh ↦ rw (e, fresh, enqueue) (inr (inr (room, refl, depth-put now r q, refl)))
    | inr (f, there) ↦ rw (e, there, enqueue) (inr (inl (room, (f, refl, refl))))
  ]
]
