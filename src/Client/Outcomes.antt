-- ===== src/Client/Outcomes.antt =====
-- Results of the portal's steps: what holds of one that is no exception, through a sequence of steps.
use updatednitr.Client.Http.{Result, ok, fail, World, M, ◌>>=◌}

-- Q holds of the value, if there is one.
unfoldable pub Holds : {A : Type 0} → (A → Type 0) → Result A → Type 0
Holds Q (ok a) = Q a
Holds Q (fail e) = Unit

Holds-any : {A : Type 0} (r : Result A) → Holds (λ a. Unit) r
unfolding Holds
Holds-any (ok a) = tt
Holds-any (fail e) = tt

module _ {S A B : Type 0} (P : A → Type 0) (Q : B → Type 0) where
  pub bind-Holds :
      (m : M S A) (f : A → M S B) (w : World S)
      → Holds P (m w).1
      → ((a : A) (w : World S) → P a → Holds Q (f a w).1)
      → Holds Q ((m >>= f) w).1
  unfolding Holds ◌>>=◌
  bind-Holds m f w h k = go (m w) h
    where
      next : World S × Result A → World S × Result B
      next (w, r) = elim r [ ok a ↦ f a w | fail e ↦ (w, fail e) ]

      go : (r : World S × Result A) → Holds P r.1 → Holds Q (next r).1
      go (w, ok a) h = k a w h
      go (w, fail e) h = tt

module _ {S A B : Type 0} (Q : B → Type 0) where
  -- Whatever a first step gives.
  pub bind-any :
      (m : M S A) (f : A → M S B) (w : World S)
      → ((a : A) (w : World S) → Holds Q (f a w).1)
      → Holds Q ((m >>= f) w).1
  bind-any m f w k = bind-Holds (λ a. Unit) Q m f w (Holds-any (m w).1) (λ a w h. k a w)
