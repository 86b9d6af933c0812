-- ===== src/JobQueue/SingleFlight.antt =====
-- Single flight: a key's requests share one future while it is not done.
use updatednitr.Prelude.{
  ℕ, ◌<◌, ◌≡◌, ◌≢◌, inl, inr, String, false, Option, none, some, arith, eq_iff, nat_eq, string_eq,
  lookup, lookup-insert_self,
}
use updatednitr.JobQueue.State.{
  Priority, high, medium, low, pending, done, Job, Queue, state_of, truthy,
}
use updatednitr.JobQueue.Enqueue.{
  Request, joined, queued, enqueue, in_flight_future, put, put_lane, new_job, enter_flight,
}
use updatednitr.JobQueue.Bounds.{depth, cap_of, admits_lem, enqueue_outcome}

-- The future `f` is in flight under the key `k`.
pub record InFlight (k : String) (f : ℕ) (q : Queue) : Type 0 where
  pub registered : lookup k q.in_flight ≡ some f
  pub unfinished : done (state_of f q) ≡ false

truthy_key : (k : String) → k ≢ "" → truthy (some k) ≡ some k
truthy_key k h = ground (arith, eq_iff k "")

InFlight-future :
    (k : String) (f : ℕ) (q : Queue)
    → k ≢ ""
    → InFlight k f q
    → in_flight_future (some k) q ≡ some f
unfolding in_flight_future
InFlight-future k f q h i = ground (arith, truthy_key k h)

pub enqueue-joins :
    (now : ℕ) (r : Request) (k : String) (f : ℕ) (q : Queue)
    → r.dedup_key ≡ some k
    → k ≢ ""
    → depth q < cap_of r.priority q
    → InFlight k f q
    → enqueue now r q ≡ (q, joined f)
unfolding enqueue
enqueue-joins now r k f q e h room i = elim (admits_lem r.priority q) [
  | inl (over, _) ↦ absurd (omega arith)
  | inr (_, a) ↦ rw (a, e, InFlight-future k f q h i, enqueue)
]

-- A request under no key, or under a key whose future is done, is put into its lane if it has room.
pub enqueue-fresh :
    (now : ℕ) (r : Request) (q : Queue)
    → in_flight_future r.dedup_key q ≡ none
    → depth q < cap_of r.priority q
    → enqueue now r q ≡ (put now r q, queued q.next_future)
unfolding enqueue
enqueue-fresh now r q e room = elim (admits_lem r.priority q) [
  | inl (over, _) ↦ absurd (omega arith)
  | inr (_, a) ↦ rw (a, e, enqueue)
]

pub in_flight_future-none :
    (key : Option String) (q : Queue) → truthy key ≡ none → in_flight_future key q ≡ none
unfolding in_flight_future
in_flight_future-none key q e = ground arith

put_lane-InFlight :
    (p : Priority) (j : Job) (k : String) (f : ℕ) (q : Queue)
    → InFlight k f q
    → InFlight k f (put_lane p j q)
unfolding put_lane
put_lane-InFlight high j k f q i = record { registered = i.registered; unfinished = i.unfinished }
put_lane-InFlight medium j k f q i = record { registered = i.registered; unfinished = i.unfinished }
put_lane-InFlight low j k f q i = record { registered = i.registered; unfinished = i.unfinished }

lookup-enter_flight :
    (key : Option String) (k : String) (q : Queue)
    → key ≡ some k
    → k ≢ ""
    → lookup k (enter_flight key q) ≡ some q.next_future
lookup-enter_flight key k q e h =
    ground (arith, truthy_key k h, lookup-insert_self k q.next_future q.in_flight)

put-InFlight :
    (now : ℕ) (r : Request) (k : String) (q : Queue)
    → r.dedup_key ≡ some k
    → k ≢ ""
    → InFlight k q.next_future (put now r q)
unfolding put
put-InFlight now r k q e h =
    put_lane-InFlight r.priority (new_job now r q) k q.next_future _ (record {
      registered = lookup-enter_flight r.dedup_key k q e h;
      unfinished = ground (arith, lookup-insert_self q.next_future pending q.futures);
    })

-- Two requests under one key make one job: when the first is queued, the second, which comes next, of any
-- type and priority that still has room, changes nothing and gets the future of the first.
pub single_flight :
    (now later : ℕ) (first second : Request) (k : String) (q : Queue)
    → first.dedup_key ≡ some k
    → second.dedup_key ≡ some k
    → k ≢ ""
    → (enqueue now first q).1 ≡ queued q.next_future
    → depth (enqueue now first q).0 < cap_of second.priority (enqueue now first q).0
    → enqueue later second (enqueue now first q).0 ≡ ((enqueue now first q).0, joined q.next_future)
single_flight now later first second k q e e' h fresh room =
    enqueue-joins later second k q.next_future _ e' h room flying
  where
    flying : InFlight k q.next_future (enqueue now first q).0
    flying = elim (enqueue_outcome now first q) [
      | inl (_, r, _) ↦ cc
      | inr (inl (_, (f, r, _))) ↦ cc
      | inr (inr (_, _, _, same)) ↦ rw same (put-InFlight now first k q e h)
    ]
