-- ===== src/Client/Probes.antt =====
-- app/nitris/client.py: what the loops over the portal's dropdowns settle on, and how often they ask.
use mathlib.Core.Path.{subst}
use updatednitr.Prelude.{
  ℕ, ◌+◌, ◌≤◌, ◌≡◌, refl, Option, none, some, List, [], ◌∷◌, arith, length, Text, Dict,
}
use updatednitr.Client.Http.{
  session_expired, invalid_context, workflow, table_missing, no_form, http_error, Result, ok, fail,
  Portal, World, ◌>>=◌, post,
}
use updatednitr.Client.Outcomes.{Holds}
use updatednitr.Client.Options.{Choice}
use updatednitr.Client.Postback.{submit_postback}
use updatednitr.Client.Attendance.{Chosen, settle_or, option_page, skip_or, probe}

-- The page that a loop settles on, if any, is accepted.
abbrev pub Accepted : {B : Type 0} → (accepts : Text → Option B) → Option (Chosen B) → Type 0
Accepted accepts none = Unit
Accepted accepts (some c) = accepts c.html ≡ some c.result

module _ {S B : Type 0} (p : Portal S) (accepts : Text → Option B) where
  option_page-requests :
      (url html : Text) (form_state : Dict Text Text) (control value : Text) (w : World S)
      → (option_page p url html form_state control value w).0.requests ≤ w.requests + 1
  unfolding option_page submit_postback post ◌>>=◌
  option_page-requests url html form_state control value w = ground arith

  skip_or-requests :
      (value : Text) (rest : World S → World S × Result (Option (Chosen B))) (n : ℕ)
      (r : World S × Result Text)
      → ((w : World S) → (rest w).0.requests ≤ w.requests + n)
      → (skip_or p accepts value rest r).0.requests ≤ r.0.requests + n
  skip_or-requests value rest n (w, ok page) h = go (accepts page)
    where
      go : (a : Option B) → (settle_or p value page rest a w).0.requests ≤ w.requests + n
      go none = h w
      go (some b) = omega arith
  skip_or-requests value rest n (w, fail invalid_context) h = h w
  skip_or-requests value rest n (w, fail session_expired) h = omega arith
  skip_or-requests value rest n (w, fail workflow) h = omega arith
  skip_or-requests value rest n (w, fail table_missing) h = omega arith
  skip_or-requests value rest n (w, fail no_form) h = omega arith
  skip_or-requests value rest n (w, fail http_error) h = omega arith

  -- A loop over the options makes at most one request for each, whether it settles, fails or runs out.
  pub probe-requests :
      (url html : Text) (form_state : Dict Text Text) (control : Text) (options : List Choice)
      (w : World S)
      → (probe p accepts url html form_state control options w).0.requests
        ≤ w.requests + length options
  unfolding probe
  probe-requests url html form_state control [] w = omega arith
  probe-requests url html form_state control ((value, text) ∷ options) w = omega (
    arith,
    skip_or-requests value (probe p accepts url html form_state control options) (length options)
        (option_page p url html form_state control value w)
        (probe-requests url html form_state control options),
    option_page-requests url html form_state control value w,
  )

  -- What the loop does with the options, one after the other: `r` is what it settles on, with `w'` after it.
  pub data Probes (url html : Text) (form_state : Dict Text Text) (control : Text)
      : List Choice → World S → World S → Option (Chosen B) → Type 0 where
    exhausted : {w : World S} → Probes url html form_state control [] w w none
    settled :
        {value text page : Text} {b : B} {options : List Choice} {w w' : World S}
        → option_page p url html form_state control value w ≡ (w', ok page)
        → accepts page ≡ some b
        → Probes url html form_state control
            ((value, text) ∷ options)
            w
            w'
            (some (record { value = value; html = page; result = b }))
    refused :
        {value text page : Text} {options : List Choice} {w w' w'' : World S}
        {r : Option (Chosen B)}
        → option_page p url html form_state control value w ≡ (w', ok page)
        → accepts page ≡ none
        → Probes url html form_state control options w' w'' r
        → Probes url html form_state control ((value, text) ∷ options) w w'' r
    lost :
        {value text : Text} {options : List Choice} {w w' w'' : World S} {r : Option (Chosen B)}
        → option_page p url html form_state control value w ≡ (w', fail invalid_context)
        → Probes url html form_state control options w' w'' r
        → Probes url html form_state control ((value, text) ∷ options) w w'' r

  -- What holds after a loop, by its result.
  abbrev Ran :
      (url html : Text)
      → Dict Text Text
      → Text
      → List Choice
      → World S
      → World S × Result (Option (Chosen B))
      → Type 0
  Ran url html form_state control options w (w', ok r) =
      Probes url html form_state control options w w' r
  Ran url html form_state control options w (w', fail e) = Unit

  module _ (url html : Text) (form_state : Dict Text Text) (control : Text) where
    Ran-lift :
        {os os' : List Choice} {w w' : World S} (r : World S × Result (Option (Chosen B)))
        → ((v : World S) (c : Option (Chosen B))
            → Probes url html form_state control os w' v c
            → Probes url html form_state control os' w v c)
        → Ran url html form_state control os w' r
        → Ran url html form_state control os' w r
    Ran-lift (v, ok c) f h = f v c h
    Ran-lift (v, fail e) f h = tt

    Ran-skip :
        (value text : Text) (options : List Choice) (w : World S) (r : World S × Result Text)
        → ((w : World S)
            → Ran url html form_state control options w
                (probe p accepts url html form_state control options w))
        → option_page p url html form_state control value w ≡ r
        → Ran url html form_state control
            ((value, text) ∷ options)
            w
            (skip_or p accepts value (probe p accepts url html form_state control options) r)
    Ran-skip value text options w (w', ok page) ih e = go (accepts page) refl
      where
        go :
            (a : Option B)
            → accepts page ≡ a
            → Ran url html form_state control
                ((value, text) ∷ options)
                w
                (settle_or p value page (probe p accepts url html form_state control options) a w')
        go none f = Ran-lift _ (λ v c h. refused e f h) (ih w')
        go (some b) f = settled e f
    Ran-skip value text options w (w', fail invalid_context) ih e =
        Ran-lift _ (λ v c h. lost e h) (ih w')
    Ran-skip value text options w (w', fail session_expired) ih e = tt
    Ran-skip value text options w (w', fail workflow) ih e = tt
    Ran-skip value text options w (w', fail table_missing) ih e = tt
    Ran-skip value text options w (w', fail no_form) ih e = tt
    Ran-skip value text options w (w', fail http_error) ih e = tt

    probe-Ran :
        (options : List Choice) (w : World S)
        → Ran url html form_state control options w
            (probe p accepts url html form_state control options w)
    unfolding probe
    probe-Ran [] w = exhausted
    probe-Ran ((value, text) ∷ options) w =
        Ran-skip value text options w (option_page p url html form_state control value w)
          (probe-Ran options) refl

    -- A loop that ends without an exception has tried the options in their order, with the requests of
    -- each, passed over the pages that it does not accept and the options that have lost their context,
    -- and settled on the first page that it accepts, or on none after the last option.
    pub probe-Probes :
        (options : List Choice) (w w' : World S) (c : Option (Chosen B))
        → probe p accepts url html form_state control options w ≡ (w', ok c)
        → Probes url html form_state control options w w' c
    probe-Probes options w w' c e =
        subst (Ran url html form_state control options w) e (probe-Ran options w)

    pub Probes-Accepted :
        {options : List Choice} {w w' : World S} {c : Option (Chosen B)}
        → Probes url html form_state control options w w' c
        → Accepted accepts c
    Probes-Accepted exhausted = tt
    Probes-Accepted (settled e f) = f
    Probes-Accepted (refused e f h) = Probes-Accepted h
    Probes-Accepted (lost e h) = Probes-Accepted h

    pub probe-Holds :
        (options : List Choice) (w : World S)
        → Holds (Accepted accepts) (probe p accepts url html form_state control options w).1
    unfolding Holds
    probe-Holds options w =
        go (probe p accepts url html form_state control options w) (probe-Ran options w)
      where
        go :
            (r : World S × Result (Option (Chosen B)))
            → Ran url html form_state control options w r
            → Holds (Accepted accepts) r.1
        go (w', ok c) h = Probes-Accepted h
        go (w', fail e) h = tt
