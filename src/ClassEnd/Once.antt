-- ===== src/ClassEnd/Once.antt =====
-- app/services/class_end_sync.py: one sync for a user on a day, and the users whom a batch leaves out.
use mathlib.Core.Bool.{true≢false}
use mathlib.Core.Path.{subst}
use updatednitr.Prelude.{
  ℕ, ◌≡◌, refl, sym, ap, ◌∙◌, Bool, true, false, Option, none, some, List, [], ◌∷◌, ◌++◌, arith,
  if◌then◌else◌, ◌==◌, nat_eq, All, contains, add, discard, contains-add, contains-discard,
  beq_refl, leb,
}
use updatednitr.ClassEnd.Sync.{
  Fired, Run, Cycle, reset_if_new_day, scan_window, fire, queued, run_class_end_sync_cycle,
  run_cycles, idle, scanned,
}

-- No user stands twice.
unfoldable pub AllDistinct : List ℕ → Type 0
AllDistinct [] = Unit
AllDistinct (u ∷ us) = (contains u us ≡ false) × AllDistinct us

contains-append :
    (u : ℕ) (xs ys : List ℕ)
    → contains u (xs ++ ys) ≡ (if contains u xs then true else contains u ys)
unfolding contains
contains-append u [] ys = refl
contains-append u (x ∷ xs) ys = ground (arith, contains-append u xs ys)

AllDistinct-append :
    (xs ys : List ℕ)
    → AllDistinct xs
    → AllDistinct ys
    → ((u : ℕ) → contains u xs ≡ true → contains u ys ≡ false)
    → AllDistinct (xs ++ ys)
unfolding AllDistinct contains
AllDistinct-append [] ys h k apart = k
AllDistinct-append (x ∷ xs) ys h k apart = (
  ground (arith, h.0, contains-append x xs ys, apart x (ground (arith, beq_refl x))),
  AllDistinct-append xs ys h.1 k (λ u m. apart u (ground (arith, m, nat_eq.same_iff x u))),
)

-- What a run does to the set of fired users: those that were in it stay, the users queued were not in it
-- and are after it, and none of them is queued twice.
pub record IsOnce {Q : Type 0} (before : List ℕ) (r : Run Q) : Type 0 where
  pub kept : (u : ℕ) → contains u before ≡ true → contains u r.user_ids ≡ true
  pub fresh : (u : ℕ) → contains u r.enqueued ≡ true → contains u before ≡ false
  pub marked : (u : ℕ) → contains u r.enqueued ≡ true → contains u r.user_ids ≡ true
  pub distinct : AllDistinct r.enqueued

not_true : (b : Bool) → (b ≡ true → true ≡ false) → b ≡ false
not_true true h = absurd (true≢false (h refl))
not_true false h = refl

module _ {Q : Type 0} (enqueue : ℕ → Q → Q × Bool) where
  queued-IsOnce :
      (u : ℕ) (before : List ℕ) (later : Run Q)
      → contains u before ≡ false
      → IsOnce (add u before) later
      → IsOnce before (queued enqueue u later)
  unfolding contains AllDistinct
  queued-IsOnce u before later new o = record {
    kept = λ v h. o.kept v (ground (arith, h, contains-add u v before));
    fresh = λ v h. go v (u == v) refl h;
    marked = λ v h. mark v (u == v) refl h;
    distinct = (
      not_true (contains u later.enqueued) (λ h. sym (marked_before h) ∙ o.fresh u h),
      o.distinct,
    );
  }
    where
      go :
          (v : ℕ) (b : Bool)
          → (u == v) ≡ b
          → (if b then true else contains v later.enqueued) ≡ true
          → contains v before ≡ false
      go v true e h = ap (λ x. contains x before) (sym ((nat_eq.same_iff u v).0 e)) ∙ new
      go v false e h = ground (arith, e, o.fresh v h, contains-add u v before)

      marked_before : contains u later.enqueued ≡ true → contains u (add u before) ≡ true
      marked_before h = ground (arith, contains-add u u before, beq_refl u)

      mark :
          (v : ℕ) (b : Bool)
          → (u == v) ≡ b
          → (if b then true else contains v later.enqueued) ≡ true
          → contains v later.user_ids ≡ true
      mark v true e h = o.kept v (ground (arith, e, contains-add u v before))
      mark v false e h = o.marked v h

  pub fire-IsOnce : (us before : List ℕ) (q : Q) → IsOnce before (fire enqueue us before q)
  unfolding fire contains AllDistinct
  fire-IsOnce [] before q = record {
    kept = λ u h. h;
    fresh = λ u h. absurd (true≢false (sym h));
    marked = λ u h. absurd (true≢false (sym h));
    distinct = tt;
  }
  fire-IsOnce (u ∷ us) before q =
      go (contains u before) refl (enqueue u q).1 (fire-IsOnce us before q)
        (fire-IsOnce us (add u before) (enqueue u q).0)
    where
      go :
          (b : Bool)
          → contains u before ≡ b
          → (ok : Bool) → IsOnce before (fire enqueue us before q)
          → IsOnce (add u before) (fire enqueue us (add u before) (enqueue u q).0)
          → IsOnce before (
              if b
              then fire enqueue us before q
              else if ok
              then queued enqueue u (fire enqueue us (add u before) (enqueue u q).0)
              else record {
                enqueued = [];
                user_ids = discard u (add u before);
                queue = (enqueue u q).0;
              })
      go true e ok s l = s
      go false e true s l = queued-IsOnce u before _ e l
      go false e false s l = record {
        kept = λ v h. ground (
          arith,
          h,
          e,
          contains-discard u v (add u before),
          contains-add u v before,
          nat_eq.same_iff u v,
        );
        fresh = λ v h. absurd (true≢false (sym h));
        marked = λ v h. absurd (true≢false (sym h));
        distinct = tt;
      }

  -- The users that count as fired on a day.
  abbrev pub fired_on : ℕ → Fired → List ℕ
  fired_on key fired = (reset_if_new_day key fired).user_ids

  pub reset_if_new_day_self :
      (key : ℕ) (us : List ℕ) → fired_on key (record { day_key = key; user_ids = us }) ≡ us
  unfolding reset_if_new_day
  reset_if_new_day_self key us = ap (λ b. (chosen b).user_ids) (beq_refl key)
    where
      chosen : Bool → Fired
      chosen b =
          if b
          then record { day_key = key; user_ids = us }
          else record { day_key = key; user_ids = [] }

  module _ (delay window batch : ℕ) where
    abbrev OnceOn : ℕ → Fired → Run Q × Fired → Type 0
    OnceOn key fired (r, fired') =
        IsOnce (fired_on key fired) (record r { user_ids = fired_on key fired' })

    idle-IsOnce :
        (key : ℕ) (fired : Fired) (q : Q)
        → OnceOn key fired (idle enqueue delay window batch fired q, fired)
    unfolding contains AllDistinct
    idle-IsOnce key fired q = record {
      kept = λ u h. h;
      fresh = λ u h. absurd (true≢false (sym h));
      marked = λ u h. absurd (true≢false (sym h));
      distinct = tt;
    }

    cycle-IsOnce :
        (c : Cycle) (fired : Fired) (q : Q)
        → OnceOn c.now.day_key fired (run_class_end_sync_cycle enqueue delay window batch c fired q)
    unfolding run_class_end_sync_cycle
    cycle-IsOnce c fired q = go (leb 5 c.now.weekday) (scan_window delay window c.now.time)
      where
        go :
            (b : Bool) (w : Option (ℕ × ℕ))
            → OnceOn c.now.day_key fired (
                if b then (idle enqueue delay window batch fired q, fired) else elim w [
                  | none ↦ (idle enqueue delay window batch fired q, fired)
                  | some w ↦ (
                    scanned enqueue delay window batch c fired q w,
                    record {
                      day_key = c.now.day_key;
                      user_ids = (scanned enqueue delay window batch c fired q w).user_ids;
                    },
                  )
                ])
        go true w = idle-IsOnce c.now.day_key fired q
        go false none = idle-IsOnce c.now.day_key fired q
        go false (some w) =
            let r = scanned enqueue delay window batch c fired q w in
            rw (reset_if_new_day_self c.now.day_key r.user_ids)
              (fire-IsOnce _ (fired_on c.now.day_key fired) q)

    run_cycles-fresh :
        (key : ℕ) (cs : List Cycle) (fired : Fired) (q : Q)
        → All (λ c. c.now.day_key ≡ key) cs
        → ((u : ℕ)
            → contains u (run_cycles enqueue delay window batch cs fired q) ≡ true
            → contains u (fired_on key fired) ≡ false)
          × AllDistinct (run_cycles enqueue delay window batch cs fired q)
    unfolding run_cycles contains AllDistinct
    run_cycles-fresh key [] fired q same = (λ u h. absurd (true≢false (sym h)), tt)
    run_cycles-fresh key (c ∷ cs) fired q same =
        go (run_class_end_sync_cycle enqueue delay window batch c fired q)
          (subst
            (λ k. OnceOn k fired (run_class_end_sync_cycle enqueue delay window batch c fired q))
            same.0 (cycle-IsOnce c fired q))
          (λ f q'. run_cycles-fresh key cs f q' same.1)
      where
        rest : Fired → Q → List ℕ
        rest = run_cycles enqueue delay window batch cs

        before_fresh :
            (r : Run Q) (f : Fired)
            → OnceOn key fired (r, f)
            → ((u : ℕ) → contains u (rest f r.queue) ≡ true → contains u (fired_on key f) ≡ false)
            → (u : ℕ) (b : Bool) → contains u r.enqueued ≡ b
            → (if b then true else contains u (rest f r.queue)) ≡ true
            → contains u (fired_on key fired) ≡ false
        before_fresh r f o later u true e h = o.fresh u e
        before_fresh r f o later u false e h =
            not_true (contains u (fired_on key fired)) (λ k. sym (o.kept u k) ∙ later u h)

        go :
            (r : Run Q × Fired)
            → OnceOn key fired r
            → ((f : Fired) (q' : Q)
                → ((u : ℕ) → contains u (rest f q') ≡ true → contains u (fired_on key f) ≡ false)
                  × AllDistinct (rest f q'))
            → ((u : ℕ)
                → contains u (r.0.enqueued ++ rest r.1 r.0.queue) ≡ true
                → contains u (fired_on key fired) ≡ false)
              × AllDistinct (r.0.enqueued ++ rest r.1 r.0.queue)
        go (r, f) o ih =
            let later = ih f r.queue in
            (
              λ u h.
                  before_fresh r f o later.0 u (contains u r.enqueued) refl
                    (sym (contains-append u r.enqueued (rest f r.queue)) ∙ h),
              AllDistinct-append r.enqueued (rest f r.queue) o.distinct later.1 (λ u m.
                  not_true (contains u (rest f r.queue)) (λ h. sym (o.marked u m) ∙ later.0 u h)),
            )

    -- However many cycles run on a day, and whatever they find and the queue refuses: no user gets two of
    -- its syncs queued. `fired` is the state before the first of them.
    pub run_cycles-AllDistinct :
        (key : ℕ) (cs : List Cycle) (fired : Fired) (q : Q)
        → All (λ c. c.now.day_key ≡ key) cs
        → AllDistinct (run_cycles enqueue delay window batch cs fired q)
    run_cycles-AllDistinct key cs fired q same = (run_cycles-fresh key cs fired q same).1
