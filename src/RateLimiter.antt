-- ===== src/RateLimiter.antt =====
-- app/nitris/rate_limiter.py, class OperationCooldown. Times are in milliseconds. A key is the text that
-- the code builds from user, operation and object. The children prove.
pub mod Entries
pub mod Cooldown
use updatednitr.Prelude.{
  ℕ, ◌+◌, ◌-◌, ◌*◌, ◌/◌, String, Bool, true, false, not, Option, none, some, List, [], ◌∷◌, leb,
  ltb, keep, length, if◌then◌else◌, Dict, lookup, insert, erase, string_eq,
}

pub record Limiter : Type 0 where
  pub cooldowns : Dict String ℕ
  pub writes_since_prune : ℕ

pub data Verdict : Type 0 where
  allowed : Verdict
  refused : (remaining : ℕ) → Verdict

abbrev pub is_active : ℕ → String × ℕ → Bool
is_active now (k, expires_at) = not (leb expires_at now)

-- _prune_expired, without the count that it returns.
unfoldable pub prune_expired : ℕ → Dict String ℕ → Dict String ℕ
prune_expired now d = keep (is_active now) d

-- The pruning at the start of check(), in every `prune_every`-th call.
unfoldable pub prune_periodically : (prune_every now : ℕ) → Limiter → Limiter
unfolding prune_expired
prune_periodically prune_every now l =
    if leb prune_every (l.writes_since_prune + 1)
    then record { cooldowns = prune_expired now l.cooldowns; writes_since_prune = 0 }
    else record l { writes_since_prune = l.writes_since_prune + 1 }

abbrev pub set_cooldown : (now : ℕ) → String → (cooldown : ℕ) → Limiter → Limiter × Verdict
set_cooldown now key cooldown l =
    (record l { cooldowns = insert key (now + cooldown) l.cooldowns }, allowed)

unfoldable pub check : (prune_every now : ℕ) → String → (cooldown : ℕ) → Limiter → Limiter × Verdict
unfolding prune_periodically
check prune_every now key cooldown l =
    let l' = prune_periodically prune_every now l in
    elim (lookup key l'.cooldowns) [
      | none ↦ set_cooldown now key cooldown l'
      | some expires_at ↦
          if ltb now expires_at
          then (l', refused ((expires_at - now) / 1000 + 1))
          else set_cooldown now key cooldown l'
    ]

unfoldable pub clear : String → Limiter → Limiter
clear key l = record l { cooldowns = erase key l.cooldowns }

-- prune_expired(), called from outside, and get_stats, which prunes too.
unfoldable pub force_prune : ℕ → Limiter → Limiter
unfolding prune_expired
force_prune now l = record l { cooldowns = prune_expired now l.cooldowns }

unfoldable pub get_stats : ℕ → Limiter → Limiter × ℕ
unfolding force_prune
get_stats now l = let l' = force_prune now l in (l', length l'.cooldowns)
