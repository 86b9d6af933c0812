-- ===== src/ClassEnd/Batch.antt =====
-- app/services/class_end_sync.py: what a cycle does whose batch is that of the cycle before.
use mathlib.Core.Bool.{true≢false}
use updatednitr.Prelude.{
  ℕ, ◌≡◌, refl, sym, ap, ◌∙◌, Bool, true, false, some, List, [], ◌∷◌, ◌++◌, arith, if◌then◌else◌,
  ◌==◌, nat_eq, contains, add, discard, contains-add, beq_refl, leb,
}
use updatednitr.ClassEnd.Sync.{
  Fired, Run, Cycle, scan_window, fire, queued, run_class_end_sync_cycle, run_cycles, scanned,
  find_class_end_candidates,
}
use updatednitr.ClassEnd.Once.{fire-IsOnce, fired_on, reset_if_new_day_self}

module _ {Q : Type 0} (enqueue : ℕ → Q → Q × Bool) where
  -- Where all have been fired, nothing happens.
  fire-fired :
      (us before : List ℕ) (q : Q)
      → ((u : ℕ) → contains u us ≡ true → contains u before ≡ true)
      → (fire enqueue us before q).enqueued ≡ []
  unfolding fire contains
  fire-fired [] before q h = refl
  fire-fired (u ∷ us) before q h =
      rw (h u (ground (arith, beq_refl u)))
        (fire-fired us before q (λ v m. h v (ground (arith, m, nat_eq.same_iff u v))))

  -- A queue that refuses nothing leaves all candidates fired.
  fire-covers :
      (us before : List ℕ) (q : Q)
      → ((u : ℕ) (q : Q) → (enqueue u q).1 ≡ true)
      → (u : ℕ) → contains u us ≡ true
      → contains u (fire enqueue us before q).user_ids ≡ true
  unfolding fire contains
  fire-covers [] before q takes u h = absurd (true≢false (sym h))
  fire-covers (x ∷ xs) before q takes u h =
      go (contains x before) refl (enqueue x q).1 (takes x q)
        (after before q (fire-covers xs before q takes u))
        (after (add x before) (enqueue x q).0
          (fire-covers xs (add x before) (enqueue x q).0 takes u))
    where
      after :
          (b : List ℕ) (q : Q)
          → (contains u xs ≡ true → contains u (fire enqueue xs b q).user_ids ≡ true)
          → contains x b ≡ true
          → contains u (fire enqueue xs b q).user_ids ≡ true
      after b q ih m = either (x == u) refl h
        where
          either :
              (c : Bool)
              → (x == u) ≡ c
              → (if c then true else contains u xs) ≡ true
              → contains u (fire enqueue xs b q).user_ids ≡ true
          either true e k =
              (fire-IsOnce enqueue xs b q).kept u
                (ap (λ y. contains y b) (sym ((nat_eq.same_iff x u).0 e)) ∙ m)
          either false e k = ih k

      go :
          (b : Bool)
          → contains x before ≡ b
          → (c : Bool) → c ≡ true
          → (contains x before ≡ true → contains u (fire enqueue xs before q).user_ids ≡ true)
          → (contains x (add x before) ≡ true
              → contains u (fire enqueue xs (add x before) (enqueue x q).0).user_ids ≡ true)
          → contains u
              (if b
                then fire enqueue xs before q
                else if c
                then queued enqueue x (fire enqueue xs (add x before) (enqueue x q).0)
                else record {
                  enqueued = [];
                  user_ids = discard x (add x before);
                  queue = (enqueue x q).0;
                }).user_ids
            ≡ true
      go true e c t s l = s e
      go false e true t s l = l (ground (arith, contains-add x x before, beq_refl x))
      go false e false t s l = absurd (true≢false (sym t))

  module _ (delay window batch : ℕ) where
    -- A cycle that scans.
    run_class_end_sync_cycle-scanned :
        (c : Cycle) (w : ℕ × ℕ) (fired : Fired) (q : Q)
        → leb 5 c.now.weekday ≡ false
        → scan_window delay window c.now.time ≡ some w
        → run_class_end_sync_cycle enqueue delay window batch c fired q ≡ (
          scanned enqueue delay window batch c fired q w,
          record {
            day_key = c.now.day_key;
            user_ids = (scanned enqueue delay window batch c fired q w).user_ids;
          },
        )
    unfolding run_class_end_sync_cycle
    run_class_end_sync_cycle-scanned c w fired q e s = rw (e, s) refl

    -- When the query of two cycles on one day gives the same batch, and the queue refuses nothing, the
    -- second queues nothing, so it does not reach a user whom the batch leaves out.
    pub same_batch-nothing :
        (c c' : Cycle) (w w' : ℕ × ℕ) (fired : Fired) (q : Q)
        → c'.now.day_key ≡ c.now.day_key
        → leb 5 c.now.weekday ≡ false
        → leb 5 c'.now.weekday ≡ false
        → scan_window delay window c.now.time ≡ some w
        → scan_window delay window c'.now.time ≡ some w'
        → find_class_end_candidates c'.entries c'.users c'.now.weekday w'.0 w'.1 batch
          ≡ find_class_end_candidates c.entries c.users c.now.weekday w.0 w.1 batch
        → ((u : ℕ) (q : Q) → (enqueue u q).1 ≡ true)
        → run_cycles enqueue delay window batch (c ∷ c' ∷ []) fired q
          ≡ run_cycles enqueue delay window batch (c ∷ []) fired q
    unfolding run_cycles
    same_batch-nothing c c' w w' fired q day e e' s s' same takes =
        ap
          (λ us.
            (run_class_end_sync_cycle enqueue delay window batch c fired q).0.enqueued
            ++ (us ++ []))
          second
      where
        r : Run Q
        r = scanned enqueue delay window batch c fired q w

        still_fired :
            fired_on enqueue c'.now.day_key
              (record { day_key = c.now.day_key; user_ids = r.user_ids })
            ≡ r.user_ids
        still_fired =
            ap (λ k. fired_on enqueue k (record { day_key = c.now.day_key; user_ids = r.user_ids }))
              day
            ∙ reset_if_new_day_self enqueue c.now.day_key r.user_ids

        second :
            (run_class_end_sync_cycle enqueue delay window batch c'
              (run_class_end_sync_cycle enqueue delay window batch c fired q).1
              (run_class_end_sync_cycle enqueue delay window batch c fired q).0.queue).0.enqueued
            ≡ []
        second =
            ap
              (λ (x : Run Q × Fired).
                (run_class_end_sync_cycle enqueue delay window batch c' x.1 x.0.queue).0.enqueued)
              (run_class_end_sync_cycle-scanned c w fired q e s)
            ∙ (ap (λ (x : Run Q × Fired). x.0.enqueued)
                  (run_class_end_sync_cycle-scanned c' w'
                    (record { day_key = c.now.day_key; user_ids = r.user_ids }) r.queue e' s')
                ∙ fire-fired
                    (find_class_end_candidates c'.entries c'.users c'.now.weekday w'.0 w'.1 batch)
                    (fired_on enqueue c'.now.day_key
                      (record { day_key = c.now.day_key; user_ids = r.user_ids }))
                    r.queue
                    (λ u m.
                      ap (contains u) still_fired
                      ∙ fire-covers _ (fired_on enqueue c.now.day_key fired) q takes u
                          (ap (contains u) (sym same) ∙ m)))
