-- ===== src/JobQueue/Order.antt =====
-- A lane's queue gives out a least job, and keeps the others.
use mathlib.Core.List.{Perm}
use mathlib.Core.List.Perm
use updatednitr.Prelude.{
  ◌≤◌, ◌<◌, ◌≡◌, refl, ◌⊎◌, Bool, true, false, Option, none, some, List, [], ◌∷◌, arith,
  if◌then◌else◌, All,
}
use updatednitr.JobQueue.State.{Job, job_lt, pop_least, get_nowait}

-- `a` may be taken before `b`: lower number of priority, or the same and not younger.
abbrev pub Precedes : Job → Job → Type 0
Precedes a b =
    (a.priority < b.priority) ⊎ ((a.priority ≡ b.priority) × (a.created_at ≤ b.created_at))

Precedes-refl : (a : Job) → Precedes a a
Precedes-refl a = ground arith

Precedes-trans : (a b c : Job) → Precedes a b → Precedes b c → Precedes a c
Precedes-trans a b c p q = ground arith

job_lt-Precedes : (a b : Job) → job_lt a b ≡ true → Precedes a b
unfolding job_lt
job_lt-Precedes a b h = ground arith

job_lt-Precedes_other : (a b : Job) → job_lt a b ≡ false → Precedes b a
unfolding job_lt
job_lt-Precedes_other a b h = ground arith

-- The job taken precedes the candidate and all the others, which are kept.
record IsLeast (j : Job) (ks : List Job) (r : Job × List Job) : Type 0 where
  kept : Perm (j ∷ ks) (r.0 ∷ r.1)
  least : Precedes r.0 j
  others : All (Precedes r.0) ks

pop_least-IsLeast : (j : Job) (ks : List Job) → IsLeast j ks (pop_least j ks)
unfolding pop_least
pop_least-IsLeast j [] = record { kept = Perm.rfl; least = Precedes-refl j; others = tt }
pop_least-IsLeast j (k ∷ ks) =
    go (job_lt k j) refl (pop_least-IsLeast k ks) (pop_least-IsLeast j ks)
  where
    go :
        (b : Bool)
        → job_lt k j ≡ b
        → IsLeast k ks (pop_least k ks)
        → IsLeast j ks (pop_least j ks)
        → IsLeast j (k ∷ ks) (
          (pop_least (if b then k else j) ks).0,
          (if b then j else k) ∷ (pop_least (if b then k else j) ks).1,
        )
    go true e young old = record {
      kept =
          Perm.trans (Perm.cons j young.kept) (Perm.swap (pop_least k ks).0 j (pop_least k ks).1);
      least = Precedes-trans (pop_least k ks).0 k j young.least (job_lt-Precedes k j e);
      others = (young.least, young.others);
    }
    go false e young old = record {
      kept =
          Perm.trans (Perm.swap k j ks)
            (Perm.trans (Perm.cons k old.kept) (Perm.swap (pop_least j ks).0 k (pop_least j ks).1));
      least = old.least;
      others = (
        Precedes-trans (pop_least j ks).0 j k old.least (job_lt-Precedes_other k j e),
        old.others,
      );
    }

-- What `get` takes off a queue.
abbrev pub Gets : List Job → Option (Job × List Job) → Type 0
Gets js none = js ≡ []
Gets js (some (j, rest)) = Perm js (j ∷ rest) × All (Precedes j) js

-- A worker that gets a job gets one that precedes all jobs of its queue: none of lower number of
-- priority, and none of the same priority that is older, is passed over. The others stay queued, and
-- a queue gives nothing only when it is empty.
pub get_nowait-least : (js : List Job) → Gets js (get_nowait js)
unfolding get_nowait
get_nowait-least [] = refl
get_nowait-least (j ∷ js) = let l = pop_least-IsLeast j js in (l.kept, (l.least, l.others))
