-- ===== src/RateLimiter/Cooldown.antt =====
-- How long a cooldown of app/nitris/rate_limiter.py holds, whatever happens meanwhile.
use updatednitr.Prelude.{
  ℕ, ◌+◌, ◌-◌, ◌/◌, ◌≤◌, ◌<◌, ◌≡◌, refl, ◌≢◌, ◌⊎◌, inl, inr, String, Bool, true, false, none, some,
  List, [], ◌∷◌, arith, leb, ltb, if◌then◌else◌, lookup, string_eq, lookup-insert, lookup-erase,
  eq_iff, All, Option-cases, Bool-cases, lookup-insert_self,
}
use mathlib.Core.Path.{subst, sym}
use updatednitr.RateLimiter.{
  Limiter, allowed, refused, is_active, prune_expired, prune_periodically, check, clear,
  force_prune, set_cooldown,
}
use updatednitr.RateLimiter.Entries.{IsDict, insert-IsDict, erase-IsDict, lookup-keep, keep-IsDict}

pub data Use : Type 0 where
  checks : (now : ℕ) → String → (cooldown : ℕ) → Use
  clears : String → Use
  prunes : (now : ℕ) → Use

abbrev pub use_one : (prune_every : ℕ) → Use → Limiter → Limiter
use_one prune_every (checks now key cooldown) l = (check prune_every now key cooldown l).0
use_one prune_every (clears key) l = clear key l
use_one prune_every (prunes now) l = force_prune now l

abbrev pub use_all : (prune_every : ℕ) → List Use → Limiter → Limiter
use_all prune_every [] l = l
use_all prune_every (u ∷ us) l = use_all prune_every us (use_one prune_every u l)

-- Of another key, and not later than a time.
abbrev pub IsOther : String → ℕ → Use → Type 0
IsOther k until (checks now key cooldown) = (key ≢ k) × (now ≤ until)
IsOther k until (clears key) = key ≢ k
IsOther k until (prunes now) = now ≤ until

-- The entry of the key is there until it expires.
record Holds (k : String) (expires_at until : ℕ) (l : Limiter) : Type 0 where
  dict : IsDict l.cooldowns
  entry :
      (lookup k l.cooldowns ≡ some expires_at)
      ⊎ ((lookup k l.cooldowns ≡ none) × (expires_at ≤ until))

pruned-Holds :
    (now : ℕ) (k : String) (expires_at until : ℕ) (l l' : Limiter)
    → now ≤ until
    → l'.cooldowns ≡ prune_expired now l.cooldowns
    → Holds k expires_at until l
    → Holds k expires_at until l'
unfolding prune_expired
pruned-Holds now k expires_at until l l' le e h = record {
  dict = subst IsDict (sym e) (keep-IsDict (is_active now) l.cooldowns h.dict);
  entry = ground (arith, e, le, h.entry, lookup-keep (is_active now) k l.cooldowns h.dict);
}

periodically-Holds :
    (prune_every now : ℕ) (k : String) (expires_at until : ℕ) (l : Limiter)
    → now ≤ until
    → Holds k expires_at until l
    → Holds k expires_at until (prune_periodically prune_every now l)
unfolding prune_periodically
periodically-Holds prune_every now k expires_at until l le h =
    go (leb prune_every (l.writes_since_prune + 1))
  where
    go :
        (b : Bool)
        → Holds k expires_at until (
            if b
            then record { cooldowns = prune_expired now l.cooldowns; writes_since_prune = 0 }
            else record l { writes_since_prune = l.writes_since_prune + 1 })
    go true = pruned-Holds now k expires_at until l _ le refl h
    go false = record { dict = h.dict; entry = h.entry }

set-Holds :
    (now cooldown : ℕ) (key k : String) (expires_at until : ℕ) (l : Limiter)
    → key ≢ k
    → Holds k expires_at until l
    → Holds k expires_at until (set_cooldown now key cooldown l).0
set-Holds now cooldown key k expires_at until l other h = record {
  dict = insert-IsDict key (now + cooldown) l.cooldowns h.dict;
  entry =
      ground
        (arith, other, h.entry, eq_iff key k, lookup-insert key k (now + cooldown) l.cooldowns);
}

-- A check refuses, and leaves the pruned state, or sets the cooldown.
check-cases :
    (prune_every now cooldown : ℕ) (key : String) (l : Limiter)
    → ((e : ℕ) × (check prune_every now key cooldown l
          ≡ (prune_periodically prune_every now l, refused ((e - now) / 1000 + 1))))
      ⊎ (check prune_every now key cooldown l
          ≡ set_cooldown now key cooldown (prune_periodically prune_every now l))
unfolding check
check-cases prune_every now cooldown key l =
    elim (Option-cases (lookup key (prune_periodically prune_every now l).cooldowns)) [
      | inl e ↦ inr (rw (e, check) refl)
      | inr (x, e) ↦ elim (Bool-cases (ltb now x)) [
        | inl b ↦ inl (x, rw (e, b, check) refl)
        | inr b ↦ inr (rw (e, b, check) refl)
      ]
    ]

check-Holds :
    (prune_every now cooldown : ℕ) (key k : String) (expires_at until : ℕ) (l : Limiter)
    → key ≢ k
    → now ≤ until
    → Holds k expires_at until l
    → Holds k expires_at until (check prune_every now key cooldown l).0
check-Holds prune_every now cooldown key k expires_at until l other le h =
    let l' : Limiter = prune_periodically prune_every now l in
    let h' : Holds k expires_at until l' =
      periodically-Holds prune_every now k expires_at until l le h in
    elim (check-cases prune_every now cooldown key l) [
      | inl (x, e) ↦ rw e h'
      | inr e ↦ rw e (set-Holds now cooldown key k expires_at until l' other h')
    ]

use_one-Holds :
    (prune_every : ℕ) (u : Use) (k : String) (expires_at until : ℕ) (l : Limiter)
    → IsOther k until u
    → Holds k expires_at until l
    → Holds k expires_at until (use_one prune_every u l)
unfolding clear force_prune
use_one-Holds prune_every (checks now key cooldown) k expires_at until l o h =
    check-Holds prune_every now cooldown key k expires_at until l o.0 o.1 h
use_one-Holds prune_every (clears key) k expires_at until l o h = record {
  dict = erase-IsDict key l.cooldowns h.dict;
  entry = ground (arith, o, h.entry, eq_iff key k, lookup-erase key k l.cooldowns);
}
use_one-Holds prune_every (prunes now) k expires_at until l o h =
    pruned-Holds now k expires_at until l _ o refl h

use_all-Holds :
    (prune_every : ℕ) (us : List Use) (k : String) (expires_at until : ℕ) (l : Limiter)
    → All (IsOther k until) us
    → Holds k expires_at until l
    → Holds k expires_at until (use_all prune_every us l)
use_all-Holds prune_every [] k expires_at until l os h = h
use_all-Holds prune_every (u ∷ us) k expires_at until l os h =
    use_all-Holds prune_every us k expires_at until (use_one prune_every u l) os.1
      (use_one-Holds prune_every u k expires_at until l os.0 h)

-- What a check finds while the entry is there, and after it has expired.
check_held :
    (prune_every now cooldown : ℕ) (k : String) (expires_at : ℕ) (l : Limiter)
    → Holds k expires_at now l
    → ((now < expires_at)
        × ((check prune_every now k cooldown l).1 ≡ refused ((expires_at - now) / 1000 + 1)))
      ⊎ ((expires_at ≤ now) × ((check prune_every now k cooldown l).1 ≡ allowed))
unfolding check
check_held prune_every now cooldown k expires_at l h =
    ground (arith, (periodically-Holds prune_every now k expires_at now l (omega arith) h).entry)

periodically-IsDict :
    (prune_every now : ℕ) (l : Limiter)
    → IsDict l.cooldowns
    → IsDict (prune_periodically prune_every now l).cooldowns
unfolding prune_periodically
periodically-IsDict prune_every now l d =
    ground (arith, d, keep-IsDict (is_active now) l.cooldowns d)

allowed-Holds :
    (prune_every now cooldown until : ℕ) (k : String) (l : Limiter)
    → IsDict l.cooldowns
    → (check prune_every now k cooldown l).1 ≡ allowed
    → Holds k (now + cooldown) until (check prune_every now k cooldown l).0
allowed-Holds prune_every now cooldown until k l d h =
    let l' : Limiter = prune_periodically prune_every now l in
    elim (check-cases prune_every now cooldown k l) [
      | inl (x, e) ↦ absurd (ground (arith, h, e))
      | inr e ↦ rw e (record {
        dict =
            insert-IsDict k (now + cooldown) l'.cooldowns (periodically-IsDict prune_every now l d);
        entry = inl (lookup-insert_self k (now + cooldown) l'.cooldowns);
      })
    ]

-- After a check that is allowed, a later check under the same key is refused until the cooldown has
-- passed, with the whole seconds that are left and one more, and is allowed from then on, whatever checks and
-- clears of other keys and whatever prunings come between, at times up to the later check.
pub cooldown_holds :
    (prune_every now cooldown later cooldown' : ℕ) (k : String) (us : List Use) (l : Limiter)
    → IsDict l.cooldowns
    → (check prune_every now k cooldown l).1 ≡ allowed
    → All (IsOther k later) us
    → let r =
        (check prune_every later k cooldown'
          (use_all prune_every us (check prune_every now k cooldown l).0)).1 in
      ((later < now + cooldown) × (r ≡ refused ((now + cooldown - later) / 1000 + 1)))
      ⊎ ((now + cooldown ≤ later) × (r ≡ allowed))
cooldown_holds prune_every now cooldown later cooldown' k us l d h os =
    check_held prune_every later cooldown' k (now + cooldown)
      (use_all prune_every us (check prune_every now k cooldown l).0)
      (use_all-Holds prune_every us k (now + cooldown) later (check prune_every now k cooldown l).0
        os (allowed-Holds prune_every now cooldown later k l d h))
