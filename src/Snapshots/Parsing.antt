-- ===== src/Snapshots/Parsing.antt =====
-- The two parsers of counts, _safe_int of app/services/event_service.py and _to_clean_int of
-- app/services/snapshot_service.py, side by side.
use updatednitr.Prelude.{◌≡◌, refl, Option, none, some, [], ◌∷◌, Text, strip}
use updatednitr.AttendanceHealth.Numbers.{ℤ, pos, int_of}
use updatednitr.Snapshots.Numbers.{safe_int, to_clean_int, digits_and_dashes, clean}

-- What _safe_int has to be, by what _to_clean_int does.
abbrev pub Agrees : Option ℤ → ℤ → Type 0
Agrees none n = n ≡ pos 0
Agrees (some m) n = n ≡ m

-- _safe_int returns the number that _to_clean_int does, and 0 where that raises ValueError.
pub to_clean_int-Agrees : (val : Option Text) → Agrees (to_clean_int val) (safe_int val)
unfolding to_clean_int safe_int int_of
to_clean_int-Agrees none = refl
to_clean_int-Agrees (some val) = go (int_of (strip val)) (digits_and_dashes (strip val))
  where
    fallback : (o : Option ℤ) → Agrees o (elim o as (λ _. ℤ) [ some n ↦ n | none ↦ pos 0 ])
    fallback none = refl
    fallback (some n) = refl

    go :
        (o : Option ℤ) (d : Text)
        → Agrees
            (elim o as (λ _. Option ℤ) [ some n ↦ some n | none ↦ clean d ])
            (elim o as (λ _. ℤ) [
              | some n ↦ n
              | none ↦ (elim (int_of d) as (λ _. ℤ) [ some n ↦ n | none ↦ pos 0 ])
            ])
    go (some n) d = refl
    go none [] = refl
    go none (c ∷ d) = fallback (int_of (c ∷ d))
