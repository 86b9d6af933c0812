-- ===== src/Gateway/Turns.antt =====
-- Whose turn it is in _dispatch_tokens of app/nitris/gateway.py: the waiter that `next(…, 0)` finds and
-- `pop(idx)` takes off the queue.
use mathlib.Core.List.{Perm, perm_middle}
use mathlib.Core.Path.{subst}
use updatednitr.Prelude.{
  ◌↔◌, length-append, suc, ◌≡◌, refl, ◌⊎◌, inl, inr, Bool, true, false, Option, none, some, List,
  [], ◌∷◌, ◌++◌, arith, if◌then◌else◌, length, All,
}
use updatednitr.Gateway.State.{Waiter}
use updatednitr.Gateway.Pacing.{pop_interactive, pop_next, IsInteractive, IsBackground}

-- `x` is the earliest interactive waiter of `q`, and `rest` is what it leaves.
record IsEarliest (q : List Waiter) (x : Waiter) (rest : List Waiter) : Type 0 where
  before : List Waiter
  behind : List Waiter
  whole : q ≡ before ++ x ∷ behind
  left : rest ≡ before ++ behind
  chosen : IsInteractive x
  passed : All IsBackground before

abbrev Popped : List Waiter → Option (Waiter × List Waiter) → Type 0
Popped q none = All IsBackground q
Popped q (some (x, rest)) = IsEarliest q x rest

Popped-cons :
    (w : Waiter) (ws : List Waiter) (r : Option (Waiter × List Waiter))
    → IsBackground w
    → Popped ws r
    → Popped (w ∷ ws) (elim r [ none ↦ none | some (x, rest) ↦ some (x, w ∷ rest) ])
Popped-cons w ws none h p = (h, p)
Popped-cons w ws (some (x, rest)) h p = record {
  before = w ∷ p.before;
  behind = p.behind;
  whole = rw p.whole;
  left = rw p.left;
  chosen = p.chosen;
  passed = (h, p.passed);
}

Popped-if :
    (b : Bool) (w : Waiter) (ws : List Waiter) (r : Option (Waiter × List Waiter))
    → w.interactive ≡ b
    → Popped ws r
    → Popped
        (w ∷ ws)
        (if b then some (w, ws) else (elim r [ none ↦ none | some (x, rest) ↦ some (x, w ∷ rest) ]))
Popped-if true w ws r e p = record {
  before = [];
  behind = ws;
  whole = refl;
  left = refl;
  chosen = e;
  passed = tt;
}
Popped-if false w ws r e p = Popped-cons w ws r e p

pop_interactive-Popped : (q : List Waiter) → Popped q (pop_interactive q)
unfolding pop_interactive
pop_interactive-Popped [] = tt
pop_interactive-Popped (w ∷ ws) =
    Popped-if w.interactive w ws (pop_interactive ws) refl (pop_interactive-Popped ws)

-- What `pop(idx)` takes: the earliest interactive waiter, or the head of a queue with none.
pub record IsNext (q : List Waiter) (x : Waiter) (rest : List Waiter) : Type 0 where
  before : List Waiter
  behind : List Waiter
  whole : q ≡ before ++ x ∷ behind
  left : rest ≡ before ++ behind
  passed : All IsBackground before
  pub first : (x.interactive ≡ true) ⊎ ((before ≡ []) × All IsBackground q)

IsNext-of :
    (w : Waiter) (ws : List Waiter) (r : Option (Waiter × List Waiter))
    → Popped (w ∷ ws) r
    → let (x, rest) = (elim r as (λ _. Waiter × List Waiter) [ none ↦ (w, ws) | some y ↦ y ]) in
      IsNext (w ∷ ws) x rest
IsNext-of w ws none p = record {
  before = [];
  behind = ws;
  whole = refl;
  left = refl;
  passed = tt;
  first = inr (refl, p);
}
IsNext-of w ws (some (x, rest)) p = record {
  before = p.before;
  behind = p.behind;
  whole = p.whole;
  left = p.left;
  passed = p.passed;
  first = inl p.chosen;
}

pub pop_next-IsNext :
    (w : Waiter) (ws : List Waiter) → IsNext (w ∷ ws) (pop_next w ws).0 (pop_next w ws).1
unfolding pop_next
pop_next-IsNext w ws = IsNext-of w ws (pop_interactive (w ∷ ws)) (pop_interactive-Popped (w ∷ ws))

All-append :
    (xs ys : List Waiter)
    → All IsBackground (xs ++ ys) ↔ (All IsBackground xs × All IsBackground ys)
All-append [] ys = (λ h. (tt, h), λ h. h.1)
All-append (x ∷ xs) ys =
    let ih = All-append xs ys in
    (λ h. ((h.0, (ih.0 h.1).0), (ih.0 h.1).1), λ h. (h.0.0, ih.1 (h.0.1, h.1)))

pub IsNext-perm :
    (q : List Waiter) (x : Waiter) (rest : List Waiter) → IsNext q x rest → Perm q (x ∷ rest)
IsNext-perm q x rest n = rw (n.whole, n.left) (perm_middle n.before n.behind)

pub IsNext-length :
    (q : List Waiter) (x : Waiter) (rest : List Waiter)
    → IsNext q x rest
    → length q ≡ suc (length rest)
IsNext-length q x rest n =
    rw (n.whole, n.left)
      (omega (arith, length-append n.before (x ∷ n.behind), length-append n.before n.behind))

pub IsNext-background :
    (q : List Waiter) (x : Waiter) (rest : List Waiter)
    → IsNext q x rest
    → All IsBackground q
    → All IsBackground rest
IsNext-background q x rest n h =
    let parts = (All-append n.before (x ∷ n.behind)).0 (subst (All IsBackground) n.whole h) in
    rw n.left ((All-append n.before n.behind).1 (parts.0, parts.1.1))
