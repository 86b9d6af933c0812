-- ===== src/JobQueue/Lanes.antt =====
-- The worker lanes: how many workers each has, and which job a worker takes.
use updatednitr.Prelude.{◌≢◌, ℕ, ◌+◌, ◌≤◌, min, ◌≡◌, refl, ◌⊎◌, false, none, List, [], ◌∷◌, arith}
use updatednitr.JobQueue.State.{Job, Queue, split_workers, get_nowait}
use updatednitr.JobQueue.Worker.{take_shared}

-- With the default split, two workers or more make no shared worker, lose none, and leave at least
-- one for the background; one worker is shared, so the lanes never lack a worker for background jobs.
pub split_workers-total :
    (total configured : ℕ)
    → let (interactive, background, shared) = split_workers total configured none in
      (interactive + background + shared ≡ total)
      × (interactive ≤ configured)
      × (min 1 total ≤ background + shared)
unfolding split_workers
split_workers-total total configured = ground arith

-- The shared worker in its three cases: it takes from the interactive lane while that has a job, and
-- leaves the background as it is; else from the background lane; and it takes nothing, and clears the
-- wake-up event, only when both are empty.
pub take_shared-interactive_first :
    (q : Queue)
    → ((q.interactive_queue ≢ [])
        × ((take_shared q).1 ≢ none)
        × ((take_shared q).0.background_queue ≡ q.background_queue)
        × ((take_shared q).0.job_event ≡ q.job_event))
      ⊎ ((q.interactive_queue ≡ [])
          × (q.background_queue ≢ [])
          × ((take_shared q).1 ≢ none)
          × ((take_shared q).0.interactive_queue ≡ [])
          × ((take_shared q).0.job_event ≡ q.job_event))
      ⊎ ((q.interactive_queue ≡ [])
          × (q.background_queue ≡ [])
          × ((take_shared q).1 ≡ none)
          × ((take_shared q).0.job_event ≡ false))
unfolding take_shared get_nowait
take_shared-interactive_first q = go q.interactive_queue q.background_queue refl refl
  where
    go :
        (is bs : List Job)
        → q.interactive_queue ≡ is
        → q.background_queue ≡ bs
        → ((q.interactive_queue ≢ [])
            × ((take_shared q).1 ≢ none)
            × ((take_shared q).0.background_queue ≡ q.background_queue)
            × ((take_shared q).0.job_event ≡ q.job_event))
          ⊎ ((q.interactive_queue ≡ [])
              × (q.background_queue ≢ [])
              × ((take_shared q).1 ≢ none)
              × ((take_shared q).0.interactive_queue ≡ [])
              × ((take_shared q).0.job_event ≡ q.job_event))
          ⊎ ((q.interactive_queue ≡ [])
              × (q.background_queue ≡ [])
              × ((take_shared q).1 ≡ none)
              × ((take_shared q).0.job_event ≡ false))
    go [] [] e f = ground arith
    go (i ∷ is) bs e f = ground arith
    go [] (b ∷ bs) e f = ground arith
