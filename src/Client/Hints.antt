-- ===== src/Client/Hints.antt =====
-- app/nitris/client.py: a page that works is found, whatever the hint says.
use mathlib.Core.Bool.{Bool-set, true≢false}
use mathlib.Core.Path.{sym}
use mathlib.Core.Logic.Or
use mathlib.Core.List.{Mem, eq-or-mem_of_mem-cons, not-mem-nil, mem-cons_self, mem-cons_of_mem}
use mathlib.Core.List.Perm.{mem_iff}
use updatednitr.Prelude.{
  ◌≡◌, refl, ap, ◌∙◌, Bool, true, false, Option, none, some, List, [], ◌∷◌, Text, Dict,
}
use updatednitr.AttendanceHealth.Subject.{Scraped}
use updatednitr.Client.Http.{
  Fault, session_expired, invalid_context, workflow, table_missing, no_form, http_error, Result, ok,
  fail, Portal, World, M, ◌>>=◌, form_fields,
}
use updatednitr.Client.Options.{Choice, prioritize, get_prioritized_sessions}
use updatednitr.Client.Orders.{get_prioritized_sessions-Perm}
use updatednitr.Client.Attendance.{
  Chosen, settle_or, skip_or, option_page, probe, accepts_session, select_session, settle,
  ctl_session,
}

abbrev pub is_ok : {A : Type 0} → Result A → Bool
is_ok (ok a) = true
is_ok (fail e) = false

abbrev pub is_some : {A : Type 0} → Option A → Bool
is_some none = false
is_some (some a) = true

-- A loop that settles on an option.
abbrev pub finds : {A : Type 0} → Result (Option A) → Bool
finds (ok found) = is_some found
finds (fail e) = false

-- The page of an option is accepted.
abbrev pub serves : {B : Type 0} → (Text → Option B) → Result Text → Bool
serves accepts (ok page) = is_some (accepts page)
serves accepts (fail e) = false

-- An option that does not end the loop with an exception: it has a page, or its context is invalid.
abbrev pub harmless : Result Text → Bool
harmless (ok page) = true
harmless (fail invalid_context) = true
harmless (fail _) = false

module _ {S B : Type 0} (p : Portal S) (accepts : Text → Option B) where
  settle_or-finds :
      (value page : Text) (rest : World S → World S × Result (Option (Chosen B))) (a : Option B)
      (w : World S)
      → finds (rest w).1 ≡ true
      → finds (settle_or p value page rest a w).1 ≡ true
  settle_or-finds value page rest none w h = h
  settle_or-finds value page rest (some b) w h = refl

  skip_or-harmless :
      (value : Text) (rest : World S → World S × Result (Option (Chosen B)))
      (r : World S × Result Text)
      → harmless r.1 ≡ true
      → ((w : World S) → finds (rest w).1 ≡ true)
      → finds (skip_or p accepts value rest r).1 ≡ true
  skip_or-harmless value rest (w, ok page) h k =
      settle_or-finds value page rest (accepts page) w (k w)
  skip_or-harmless value rest (w, fail invalid_context) h k = k w
  skip_or-harmless value rest (w, fail session_expired) h k = absurd (true≢false (sym h))
  skip_or-harmless value rest (w, fail workflow) h k = absurd (true≢false (sym h))
  skip_or-harmless value rest (w, fail table_missing) h k = absurd (true≢false (sym h))
  skip_or-harmless value rest (w, fail no_form) h k = absurd (true≢false (sym h))
  skip_or-harmless value rest (w, fail http_error) h k = absurd (true≢false (sym h))

  settle_or-serves :
      (value page : Text) (rest : World S → World S × Result (Option (Chosen B))) (a : Option B)
      (w : World S)
      → is_some a ≡ true
      → finds (settle_or p value page rest a w).1 ≡ true
  settle_or-serves value page rest none w h = absurd (true≢false (sym h))
  settle_or-serves value page rest (some b) w h = refl

  skip_or-serves :
      (value : Text) (rest : World S → World S × Result (Option (Chosen B)))
      (r : World S × Result Text)
      → serves accepts r.1 ≡ true
      → finds (skip_or p accepts value rest r).1 ≡ true
  skip_or-serves value rest (w, ok page) h = settle_or-serves value page rest (accepts page) w h
  skip_or-serves value rest (w, fail e) h = absurd (true≢false (sym h))

  module _ (url html : Text) (form_state : Dict Text Text) (control : Text) where
    -- A loop settles on an option, where one of the options always has a page that is accepted, and none
    -- raises an exception other than that of a lost context.
    pub probe-finds :
        (options : List Choice) (o : Choice)
        → Mem o options
        → ((w : World S)
            → serves accepts (option_page p url html form_state control o.0 w).1 ≡ true)
        → ((x : Choice)
            → Mem x options
            → (w : World S) → harmless (option_page p url html form_state control x.0 w).1 ≡ true)
        → (w : World S) → finds (probe p accepts url html form_state control options w).1 ≡ true
    unfolding probe
    probe-finds [] o m works safe w = absurd (not-mem-nil m)
    probe-finds ((value, text) ∷ options) o m works safe w =
        Or.elim (Bool-set _ _) (eq-or-mem_of_mem-cons m)
          (λ e. skip_or-serves value _ (option_page p url html form_state control value w) (
            ap (λ (x : Choice). serves accepts (option_page p url html form_state control x.0 w).1)
              (sym e)
            ∙ works w))
          (λ later.
            skip_or-harmless value _ (option_page p url html form_state control value w)
              (safe (value, text) mem-cons_self w)
              (probe-finds options o later works (λ x m. safe x (mem-cons_of_mem (value, text) m))))

module _ {S : Type 0} (p : Portal S) where
  settle-ok :
      {B : Type 0} (e : Fault) (m : M S (Option (Chosen B))) (w : World S)
      → finds (m w).1 ≡ true
      → is_ok ((m >>= settle e) w).1 ≡ true
  unfolding ◌>>=◌
  settle-ok {B} e m w h = go (m w) h
    where
      next : World S × Result (Option (Chosen B)) → World S × Result (Chosen B)
      next (w, r) = elim r [ ok a ↦ settle e a w | fail e ↦ (w, fail e) ]

      go : (r : World S × Result (Option (Chosen B))) → finds r.1 ≡ true → is_ok (next r).1 ≡ true
      go (w, ok (some c)) h = refl
      go (w, ok none) h = absurd (true≢false (sym h))
      go (w, fail e) h = absurd (true≢false (sym h))

  -- Step 4 of fetch_attendance ends with a page, with any semester and any hint, if the page in hand has
  -- its form fields, one of the sessions of its dropdown always has a page whose table can be parsed, and
  -- no session raises an exception other than that of a lost context.
  pub select_session-finds :
      (url html semester : Text) (hint : Option Text) (form_state : Dict Text Text) (o : Choice)
      → p.extract_form_fields html ≡ some form_state
      → Mem o (p.extract_dropdown_options html ctl_session)
      → ((w : World S)
          → serves (accepts_session p) (option_page p url html form_state ctl_session o.0 w).1
            ≡ true)
      → ((x : Choice)
          → Mem x (p.extract_dropdown_options html ctl_session)
          → (w : World S) → harmless (option_page p url html form_state ctl_session x.0 w).1 ≡ true)
      → (w : World S) → is_ok (select_session p url html semester hint w).1 ≡ true
  unfolding select_session form_fields ◌>>=◌
  select_session-finds url html semester hint form_state o e m works safe w =
      rw (e, is_ok)
        (go (p.extract_dropdown_options html ctl_session) m safe (form_fields p html w).0)
    where
      next : List Choice → M S (Chosen (List Scraped))
      next os = do
        options ← λ w. (w, ok os)
        prioritized_sessions ← λ w. (
          w,
          elim options [
            | [] ↦ fail workflow
            | o ∷ os ↦ ok (get_prioritized_sessions semester (o ∷ os))
          ],
        )
        found ←
            probe p (accepts_session p) url html form_state ctl_session
              (prioritize prioritized_sessions hint)
        settle table_missing found

      go :
          (os : List Choice)
          → Mem o os
          → ((x : Choice)
              → Mem x os
              → (w : World S)
              → harmless (option_page p url html form_state ctl_session x.0 w).1 ≡ true)
          → (w : World S) → is_ok (next os w).1 ≡ true
      go [] m safe w = absurd (not-mem-nil m)
      go (x ∷ xs) m safe w =
          let order = prioritize (get_prioritized_sessions semester (x ∷ xs)) hint in
          let tried = get_prioritized_sessions-Perm semester (x ∷ xs) hint in
          settle-ok table_missing
            (probe p (accepts_session p) url html form_state ctl_session order) w
            (probe-finds p (accepts_session p) url html form_state ctl_session order o
              ((mem_iff tried).0 m) works (λ y n. safe y ((mem_iff tried).1 n)) w)
