-- ===== src/Client/Postback.antt =====
-- submit_postback of app/nitris/aspnet.py, and _fetch_attendance_page of app/nitris/client.py, which
-- judges its response in the same way.
use updatednitr.Prelude.{
  Bool, true, false, not, none, some, [], ◌∷◌, if◌then◌else◌, ◌==◌, nat_eq, text_eq, Text, Dict,
  lookup, insert, codes, has_text, keep,
}
use updatednitr.Client.Http.{
  Response, session_expired, invalid_context, workflow, Result, ok, fail, Portal, M, ◌>>=◌, get,
  post, is_redirect, is_login_page, is_error_page,
}

abbrev pub event_target : Text
event_target = codes "__EVENTTARGET"

abbrev pub event_argument : Text
event_argument = codes "__EVENTARGUMENT"

abbrev pub is_given : Dict Text Text → Text → Bool
is_given updates k = elim (lookup k updates) [ none ↦ false | some v ↦ true ]

-- {**state, **updates}
unfoldable pub merge : Dict Text Text → Dict Text Text → Dict Text Text
merge state [] = state
merge state ((k, v) ∷ updates) = merge (insert k v state) updates

-- The payload of a postback.
unfoldable pub payload :
    (form_state : Dict Text Text)
    → (target : Text) → (form_updates : Dict Text Text) → Dict Text Text
unfolding merge
payload form_state target form_updates =
    let cleaned = keep (λ (kv : Text × Text). not (is_given form_updates kv.0)) form_state in
    merge (insert event_argument [] (insert event_target target cleaned)) form_updates

-- What a redirect or an error status raises, else the page.
unfoldable pub judge : Response → Result Text
unfolding is_login_page is_error_page
judge r =
    if is_redirect r
    then if has_text (codes "Login.aspx") r.location
      then fail session_expired
      else if has_text (codes "503.aspx") r.location
      then fail invalid_context
      else fail workflow
    else if not (r.status_code == 200)
    then fail workflow
    else if is_login_page r.text
    then fail session_expired
    else if is_error_page r.text r
    then fail invalid_context
    else ok r.text

module _ {S : Type 0} (p : Portal S) where
  unfoldable pub submit_postback :
      (url : Text)
      → (form_state : Dict Text Text) → (target : Text) → (form_updates : Dict Text Text) → M S Text
  unfolding payload judge post
  submit_postback url form_state target form_updates =
      post p url (payload form_state target form_updates) >>= λ r w. (w, judge r)

  unfoldable pub fetch_attendance_page : Text → M S Text
  unfolding judge get
  fetch_attendance_page url = get p false url >>= λ r w. (w, judge r)
