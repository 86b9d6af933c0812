-- ===== src/Client/Http.antt =====
-- What app/nitris/client.py works with: responses, exceptions, and the state that its calls share.
use updatednitr.Prelude.{
  ℕ, ◌+◌, Bool, ◌||◌, Option, none, some, List, [], ◌∷◌, if◌then◌else◌, nat_eq, Text, Dict, codes,
  has_text, lower, contains,
}
use updatednitr.AttendanceHealth.Subject.{Scraped}

pub record Response : Type 0 where
  pub status_code : ℕ
  pub location : Text
  pub text : Text

-- The exceptions: `http_error` is httpx.HTTPError, `no_form` HiddenFieldExtractionError.
pub data Fault : Type 0 where
  session_expired invalid_context workflow table_missing no_form http_error : Fault

pub data Result {ℓ} (A : Type ℓ) : Type ℓ where
  ok : A → Result A
  fail : Fault → Result A

-- An entry of _resolved_url_cache: an empty sub-page is one that is not resolved yet.
pub record CachedUrl : Type 0 where
  pub launcher_href : Text
  pub subpage_href : Text
  pub expires_at : ℕ

-- An entry of _probe_hints.
pub record Hint : Type 0 where
  pub year : Text
  pub session : Text
  pub expires_at : ℕ

-- The portal with its session and the clock, in a state of type `S`; the functions of HTML and URLs.
pub record Portal (S : Type 0) : Type 0 where
  pub time : S → ℕ
  pub get : (follow_redirects : Bool) → Text → S → S × Option Response
  pub post : Text → Dict Text Text → S → S × Option Response
  pub extract_form_fields : Text → Option (Dict Text Text)
  pub extract_dropdown_options : (html name : Text) → List (Text × Text)
  pub parse_attendance_html : Text → Option (List Scraped)
  pub find_launcher_by_module_name : (html module_name : Text) → Option Text
  pub find_subpage_link : (html keyword : Text) → Option Text
  pub absolute : Text → Text
  pub month : ℕ
  pub current_start_year : ℕ

-- The state, with the caches of the process and the number of requests made so far.
pub record World (S : Type 0) : Type 0 where
  pub server : S
  pub requests : ℕ
  pub urls : Dict (Text × Text) CachedUrl
  pub hints : Dict Text Hint

abbrev pub M : Type 0 → Type 0 → Type 0
M S A = World S → World S × Result A

infixl 5 ◌>>=◌
unfoldable pub ◌>>=◌ : {S A B : Type 0} → M S A → (A → M S B) → M S B
◌>>=◌ m f w = let (w', r) = m w in elim r [ ok a ↦ f a w' | fail e ↦ (w', fail e) ]

abbrev pub return : {S A : Type 0} → A → M S A
return a w = (w, ok a)

abbrev pub raise : {S A : Type 0} → Fault → M S A
raise e w = (w, fail e)

abbrev pub received : Option Response → Result Response
received none = fail http_error
received (some r) = ok r

module _ {S : Type 0} (p : Portal S) where
  unfoldable pub get : Bool → Text → M S Response
  get follow url w =
      let (s, r) = p.get follow url w.server in
      (record w { server = s; requests = w.requests + 1 }, received r)

  unfoldable pub post : Text → Dict Text Text → M S Response
  post url payload w =
      let (s, r) = p.post url payload w.server in
      (record w { server = s; requests = w.requests + 1 }, received r)

  -- extract_form_fields
  unfoldable pub form_fields : Text → M S (Dict Text Text)
  form_fields html w = elim (p.extract_form_fields html) [
    | none ↦ (w, fail no_form)
    | some fields ↦ (w, ok fields)
  ]

-- status_code in (301, 302, 303, 307, 308)
abbrev pub is_redirect : Response → Bool
is_redirect r = contains r.status_code (301 ∷ 302 ∷ 303 ∷ 307 ∷ 308 ∷ [])

unfoldable pub is_login_page : Text → Bool
is_login_page html =
    has_text (codes "Login.aspx") html || has_text (codes "txtusername") (lower html)

unfoldable pub is_error_page : Text → Response → Bool
is_error_page html r =
    if is_redirect r
    then has_text (codes "503.aspx") r.location
    else has_text (codes "Error Pages/503.aspx") html || has_text (codes "Error 503") html
