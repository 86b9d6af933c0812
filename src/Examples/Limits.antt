-- ===== src/Examples/Limits.antt =====
-- Runs of the rate limiter (app/nitris/rate_limiter.py).
use updatednitr.Prelude.{
  ◌+◌, ◌-◌, ◌/◌, ◌≤◌, ◌<◌, ◌≡◌, ◌⊎◌, List, [], ◌∷◌, arith, lookup, ◌≢◌, String, eq_iff,
}
use updatednitr.RateLimiter.{Limiter, allowed, refused, check}
use updatednitr.RateLimiter.Cooldown.{Use, checks, prunes, use_all, cooldown_holds}

abbrev idle : Limiter
idle = record { cooldowns = []; writes_since_prune = 0 }

abbrev others : List Use
others = checks 2000 "6:inbox" 60000 ∷ prunes 3000 ∷ []

first_allowed : (check 100 1000 "5:inbox" 60000 idle).1 ≡ allowed
unfolding check lookup
first_allowed = ground arith

other_key : ◌≢◌ {A = String} "6:inbox" "5:inbox"
other_key = ground (arith, eq_iff "6:inbox" "5:inbox")

cooldown_holds_example :
    let r =
      (check 100 31000 "5:inbox" 60000
        (use_all 100 others (check 100 1000 "5:inbox" 60000 idle).0)).1 in
    ((31000 < 1000 + 60000) × (r ≡ refused ((1000 + 60000 - 31000) / 1000 + 1)))
    ⊎ ((1000 + 60000 ≤ 31000) × (r ≡ allowed))
cooldown_holds_example =
    cooldown_holds 100 1000 60000 31000 60000 "5:inbox" others idle tt first_allowed
      ((other_key, omega arith), (omega arith, tt))
