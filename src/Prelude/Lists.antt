-- ===== src/Prelude/Lists.antt =====
-- Lists measured by native numbers, predicates on lists, and Boolean filters.
use Prim.Native.Nat.{ℕ, suc, ◌+◌, ◌≤◌}
use mathlib.Core.Path.{◌≡◌, refl, sym, ap, ◌∙◌, subst}
use mathlib.Core.Logic.{◌⊎◌, inl, inr}
use mathlib.Core.Bool.{Bool, true, false, true≢false}
use mathlib.Core.List.{List, [], ◌∷◌, ◌++◌}
use native.Mathlib.Omega.{arith}
use updatednitr.Prelude.Tests.{if◌then◌else◌}

-- The type without a value, at any level.
pub data Never {ℓ} : Type ℓ where

module _ {ℓ} {A : Type ℓ} where
  abbrev pub length : List A → ℕ
  length [] = 0
  length (x ∷ xs) = suc (length xs)

  -- The entries that pass a test, as in a Python list comprehension.
  abbrev pub keep : (A → Bool) → List A → List A
  keep p [] = []
  keep p (x ∷ xs) = let rest = keep p xs in if p x then x ∷ rest else rest

  abbrev pub any : (A → Bool) → List A → Bool
  any p [] = false
  any p (x ∷ xs) = let rest = any p xs in if p x then true else rest

  abbrev pub all : (A → Bool) → List A → Bool
  all p [] = true
  all p (x ∷ xs) = let rest = all p xs in if p x then rest else false

  abbrev pub All {κ} : (A → Type κ) → List A → Type κ
  All P [] = Unit
  All P (x ∷ xs) = P x × All P xs

  pub length-append : (xs ys : List A) → length (xs ++ ys) ≡ length xs + length ys
  length-append [] ys = omega arith
  length-append (x ∷ xs) ys = omega (arith, length-append xs ys)

  pub length-keep-le : (p : A → Bool) (xs : List A) → length (keep p xs) ≤ length xs
  length-keep-le p [] = omega arith
  length-keep-le p (x ∷ xs) = ground (arith, length-keep-le p xs)

  -- `x` is an entry of the list.
  abbrev pub Member : A → List A → Type ℓ
  Member x [] = Never
  Member x (y ∷ ys) = (x ≡ y) ⊎ Member x ys

module _ {ℓ κ} {A : Type ℓ} (P : A → Type κ) where
  pub All-Member : (x : A) (xs : List A) → Member x xs → All P xs → P x
  All-Member x [] m h = elim m [ ]
  All-Member x (y ∷ xs) (inl e) h = subst P (sym e) h.0
  All-Member x (y ∷ xs) (inr m) h = All-Member x xs m h.1

  pub Member-All : (xs : List A) → ((x : A) → Member x xs → P x) → All P xs
  Member-All [] f = tt
  Member-All (x ∷ xs) f = (f x (inl refl), Member-All xs (λ y m. f y (inr m)))

module _ {ℓ} {A : Type ℓ} (p : A → Bool) (x : A) where
  pub Member-keep : (xs : List A) → Member x xs → p x ≡ true → Member x (keep p xs)
  Member-keep [] m h = elim m [ ]
  Member-keep (y ∷ xs) m h = go (p y) refl m (λ r. Member-keep xs r h)
    where
      go :
          (b : Bool)
          → p y ≡ b
          → (x ≡ y) ⊎ Member x xs
          → (Member x xs → Member x (keep p xs))
          → Member x (if b then y ∷ keep p xs else keep p xs)
      go true e (inl q) ih = inl q
      go true e (inr m) ih = inr (ih m)
      go false e (inl q) ih = absurd (true≢false (sym h ∙ ap p q ∙ e))
      go false e (inr m) ih = ih m

  pub Member-kept : (xs : List A) → Member x (keep p xs) → Member x xs × (p x ≡ true)
  Member-kept [] m = elim m [ ]
  Member-kept (y ∷ xs) m = go (p y) refl m (Member-kept xs)
    where
      go :
          (b : Bool)
          → p y ≡ b
          → Member x (if b then y ∷ keep p xs else keep p xs)
          → (Member x (keep p xs) → Member x xs × (p x ≡ true))
          → ((x ≡ y) ⊎ Member x xs) × (p x ≡ true)
      go true e (inl q) ih = (inl q, ap p q ∙ e)
      go true e (inr r) ih = (inr (ih r).0, (ih r).1)
      go false e r ih = (inr (ih r).0, (ih r).1)

module _ {ℓ κ} {A : Type ℓ} (P : A → Type κ) (p : A → Bool) where
  -- What holds of every entry that passes the test holds of the entries that are kept.
  pub All-keep : (xs : List A) → All (λ x. p x ≡ true → P x) xs → All P (keep p xs)
  All-keep [] h = tt
  All-keep (x ∷ xs) h = go (p x) refl (All-keep xs h.1)
    where
      go : (b : Bool) → p x ≡ b → All P (keep p xs) → All P (if b then x ∷ keep p xs else keep p xs)
      go true e r = (h.0 e, r)
      go false e r = r
