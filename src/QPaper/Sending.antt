-- ===== src/QPaper/Sending.antt =====
-- The attempts of _deliver_cached of app/services/qpaper_service.py.
use updatednitr.Prelude.{
  ℕ, zero, suc, ◌+◌, ◌<◌, ◌≡◌, refl, sym, ap, ◌∙◌, ◌↔◌, Bool, true, false, Option, some, String,
  arith, ◌⊎◌, inl, inr, leb, lt→leb_false,
}
use mathlib.Core.Path.{subst}
use updatednitr.QPaper.Acquire.{delivered}
use updatednitr.QPaper.Deliver.{
  FileAnswer, sent, forbidden, retry_after, bad_file, gone, api_error, CachedSend, ends,
  after_file_answer, deliver_cached,
}

-- The answers after which the loop tries again, when it may.
abbrev pub passing : FileAnswer → Bool
passing sent = false
passing forbidden = false
passing (retry_after s) = true
passing (bad_file m) = false
passing (gone m) = false
passing (api_error m) = true

-- An attempt sends the file, and those before it let the loop go on.
pub record IsSent (left start : ℕ) (answers : ℕ → FileAnswer) : Type 0 where
  pub attempt : ℕ
  pub within : attempt < left
  pub sends : answers (start + attempt) ≡ sent
  pub earlier : (j : ℕ) → j < attempt → passing (answers (start + j)) ≡ true

deliver_cached-over :
    (left start : ℕ) (kind : Option String) (answers : ℕ → FileAnswer) (r : CachedSend)
    → after_file_answer (leb left 0) kind (answers start) ≡ some r
    → deliver_cached (suc left) start kind answers ≡ r
unfolding deliver_cached
deliver_cached-over left start kind answers r e = rw (e, deliver_cached) refl

deliver_cached-again :
    (left start : ℕ) (kind : Option String) (answers : ℕ → FileAnswer)
    → passing (answers start) ≡ true
    → deliver_cached (suc (suc left)) start kind answers
      ≡ deliver_cached (suc left) (start + 1) kind answers
unfolding deliver_cached
deliver_cached-again left start kind answers h = go (answers start) refl h
  where
    go :
        (a : FileAnswer)
        → answers start ≡ a
        → passing (answers start) ≡ true
        → deliver_cached (suc (suc left)) start kind answers
          ≡ deliver_cached (suc left) (start + 1) kind answers
    go sent e h = ground (arith, e, h)
    go forbidden e h = ground (arith, e, h)
    go (retry_after s) e h = rw (e, deliver_cached, lt→leb_false (suc left) 0 (omega arith)) refl
    go (bad_file m) e h = ground (arith, e, h)
    go (gone m) e h = ground (arith, e, h)
    go (api_error m) e h = rw (e, deliver_cached, lt→leb_false (suc left) 0 (omega arith)) refl

IsSent-later :
    (left start : ℕ) (answers : ℕ → FileAnswer)
    → passing (answers start) ≡ true
    → IsSent left (start + 1) answers
    → IsSent (suc left) start answers
IsSent-later left start answers h s = record {
  attempt = suc s.attempt;
  within = omega (arith, s.within);
  sends = subst (λ n. answers n ≡ sent) (omega arith) s.sends;
  earlier = λ j. before j;
}
  where
    before : (j : ℕ) → j < suc s.attempt → passing (answers (start + j)) ≡ true
    before zero p = subst (λ n. passing (answers n) ≡ true) (omega arith) h
    before (suc j) p =
        subst (λ n. passing (answers n) ≡ true) (omega arith) (s.earlier j (omega (arith, p)))

IsSent-drop :
    (left start : ℕ) (answers : ℕ → FileAnswer)
    → passing (answers start) ≡ true
    → IsSent (suc left) start answers
    → IsSent left (start + 1) answers
IsSent-drop left start answers h s = go s.attempt s.within s.sends s.earlier
  where
    unsent : answers start ≡ sent → ⊥
    unsent q = ground (arith, q, h)

    go :
        (k : ℕ)
        → k < suc left
        → answers (start + k) ≡ sent
        → ((j : ℕ) → j < k → passing (answers (start + j)) ≡ true)
        → IsSent left (start + 1) answers
    go zero w e b = absurd (unsent (subst (λ n. answers n ≡ sent) (omega arith) e))
    go (suc k) w e b = record {
      attempt = k;
      within = omega (arith, w);
      sends = subst (λ n. answers n ≡ sent) (omega arith) e;
      earlier = λ j p.
          subst (λ n. passing (answers n) ≡ true) (omega arith) (b (suc j) (omega (arith, p)));
    }

IsSent-first :
    (left start : ℕ) (answers : ℕ → FileAnswer)
    → IsSent left start answers
    → (answers start ≡ sent) ⊎ (passing (answers start) ≡ true)
IsSent-first left start answers s = go s.attempt s.sends s.earlier
  where
    go :
        (k : ℕ)
        → answers (start + k) ≡ sent
        → ((j : ℕ) → j < k → passing (answers (start + j)) ≡ true)
        → (answers start ≡ sent) ⊎ (passing (answers start) ≡ true)
    go zero e b = inl (subst (λ n. answers n ≡ sent) (omega arith) e)
    go (suc k) e b = inr (subst (λ n. passing (answers n) ≡ true) (omega arith) (b 0 (omega arith)))

IsSent-now :
    (left start : ℕ) (answers : ℕ → FileAnswer)
    → answers start ≡ sent
    → IsSent (suc left) start answers
IsSent-now left start answers e = record {
  attempt = 0;
  within = omega arith;
  sends = subst (λ n. answers n ≡ sent) (omega arith) e;
  earlier = λ j p. absurd (omega (arith, p));
}

deliver_cached-IsSent :
    (left start : ℕ) (kind : Option String) (answers : ℕ → FileAnswer)
    → deliver_cached left start kind answers ≡ ends (delivered kind)
    → IsSent left start answers
unfolding deliver_cached
deliver_cached-IsSent zero start kind answers h = absurd (ground (arith, h))
deliver_cached-IsSent (suc left) start kind answers h =
    go left (answers start) refl h (deliver_cached-IsSent left (start + 1) kind answers)
  where
    go :
        (left : ℕ) (a : FileAnswer)
        → answers start ≡ a
        → deliver_cached (suc left) start kind answers ≡ ends (delivered kind)
        → (deliver_cached left (start + 1) kind answers ≡ ends (delivered kind)
            → IsSent left (start + 1) answers)
        → IsSent (suc left) start answers
    go left sent e q ih = IsSent-now left start answers e
    go left forbidden e q ih = ground (arith, e, q)
    go left (bad_file m) e q ih = ground (arith, e, q)
    go left (gone m) e q ih = ground (arith, e, q)
    go zero (retry_after s) e q ih = ground (arith, e, q)
    go zero (api_error m) e q ih = ground (arith, e, q)
    go (suc left) (retry_after s) e q ih =
        IsSent-later (suc left) start answers (ap passing e)
          (ih (sym (deliver_cached-again left start kind answers (ap passing e)) ∙ q))
    go (suc left) (api_error m) e q ih =
        IsSent-later (suc left) start answers (ap passing e)
          (ih (sym (deliver_cached-again left start kind answers (ap passing e)) ∙ q))

IsSent-deliver_cached :
    (left start : ℕ) (kind : Option String) (answers : ℕ → FileAnswer)
    → IsSent left start answers
    → deliver_cached left start kind answers ≡ ends (delivered kind)
unfolding deliver_cached
IsSent-deliver_cached zero start kind answers s = absurd (omega (arith, s.within))
IsSent-deliver_cached (suc left) start kind answers s =
    elim (IsSent-first (suc left) start answers s) [
      | inl e ↦ deliver_cached-over left start kind answers (ends (delivered kind)) (rw e refl)
      | inr p ↦
          go left p (IsSent-drop left start answers p s)
            (IsSent-deliver_cached left (start + 1) kind answers)
    ]
  where
    go :
        (left : ℕ)
        → passing (answers start) ≡ true
        → IsSent left (start + 1) answers
        → (IsSent left (start + 1) answers
            → deliver_cached left (start + 1) kind answers ≡ ends (delivered kind))
        → deliver_cached (suc left) start kind answers ≡ ends (delivered kind)
    go zero p r ih = absurd (omega (arith, r.within))
    go (suc left) p r ih = deliver_cached-again left start kind answers p ∙ ih r

-- _deliver_cached reports a delivery exactly when one of the attempts that it may make sends the file
-- and every attempt before it met a flood wait or an error of Telegram that speaks neither of the file
-- id nor of the chat.
pub deliver_cached_delivers :
    (max_retries : ℕ) (kind : Option String) (answers : ℕ → FileAnswer)
    → (deliver_cached max_retries 0 kind answers ≡ ends (delivered kind))
      ↔ IsSent max_retries 0 answers
deliver_cached_delivers max_retries kind answers = (
  deliver_cached-IsSent max_retries 0 kind answers,
  IsSent-deliver_cached max_retries 0 kind answers,
)
