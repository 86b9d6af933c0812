-- ===== src/RateLimiter/Entries.antt =====
-- A Python dict has a key once: what the operations of app/nitris/rate_limiter.py keep of that, and what
-- a filter of the entries leaves.
use updatednitr.Prelude.{
  ℕ, ◌≡◌, refl, String, Bool, none, some, [], ◌∷◌, arith, keep, if◌then◌else◌, Dict, lookup, insert,
  erase, string_eq, lookup-insert, lookup-erase, eq_iff,
}

abbrev pub IsDict : Dict String ℕ → Type 0
IsDict [] = Unit
IsDict ((k, v) ∷ d) = (lookup k d ≡ none) × IsDict d

pub insert-IsDict : (k : String) (v : ℕ) (d : Dict String ℕ) → IsDict d → IsDict (insert k v d)
unfolding insert lookup
insert-IsDict k v [] h = (refl, tt)
insert-IsDict k v ((j, w) ∷ d) h =
    ground (arith, insert-IsDict k v d h.1, lookup-insert k j v d, eq_iff j k, eq_iff k j)

pub erase-IsDict : (k : String) (d : Dict String ℕ) → IsDict d → IsDict (erase k d)
unfolding erase
erase-IsDict k [] h = tt
erase-IsDict k ((j, w) ∷ d) h =
    ground (arith, erase-IsDict k d h.1, lookup-erase k j d, eq_iff j k, eq_iff k j)

-- A filter keeps an entry that passes, and a key that is not there stays away.
pub lookup-keep :
    (p : String × ℕ → Bool) (k : String) (d : Dict String ℕ)
    → IsDict d
    → lookup k (keep p d)
      ≡ (elim (lookup k d) [ none ↦ none | some v ↦ if p (k, v) then some v else none ])
unfolding lookup
lookup-keep p k [] h = refl
lookup-keep p k ((j, w) ∷ d) h = ground (arith, lookup-keep p k d h.1, eq_iff j k, h.0)

pub keep-IsDict : (p : String × ℕ → Bool) (d : Dict String ℕ) → IsDict d → IsDict (keep p d)
keep-IsDict p [] h = tt
keep-IsDict p ((j, w) ∷ d) h = ground (arith, keep-IsDict p d h.1, lookup-keep p j d h.1, h.0)
