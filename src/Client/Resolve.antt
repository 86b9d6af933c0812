-- ===== src/Client/Resolve.antt =====
-- The URLs of the portal's modules: _resolve_module_subpage_url and the cache of resolved URLs of
-- app/nitris/client.py.
use updatednitr.Prelude.{
  ℕ, ◌+◌, ◌≡◌, ◌↔◌, Bool, true, false, not, ◌&&◌, Option, none, some, [], ◌∷◌, arith, if◌then◌else◌,
  ◌==◌, nat_eq, text_eq, text_beq, text_beq_iff, Key, Text, lookup, insert, erase, codes, lower,
  strip, ltb,
}
use updatednitr.Client.Http.{
  Response, session_expired, workflow, Result, ok, fail, CachedUrl, Portal, World, M, ◌>>=◌, get,
  is_login_page, is_error_page,
}

abbrev pair_beq : Text × Text → Text × Text → Bool
pair_beq (a, b) (c, d) = text_beq a c && text_beq b d

pub pair_beq_iff : (a b : Text × Text) → (pair_beq a b ≡ true) ↔ (a ≡ b)
pair_beq_iff (a, b) (c, d) = ground (arith, text_beq_iff a c, text_beq_iff b d)

-- The keys (module, keyword).
instance abbrev pub pair_eq : Key (Text × Text)
pair_eq = record { same = pair_beq; same_iff = pair_beq_iff }

-- _RESOLVED_URL_TTL_SECONDS and _PROBE_HINT_TTL_SECONDS are parameters, `url_ttl` and `hint_ttl`.
unfoldable pub cache_key : Text → Text → Text × Text
cache_key module_name keyword = (lower (strip module_name), lower (strip keyword))

abbrev pub home_page_url : Text
home_page_url = codes "/nitris/Student/Home/Home.aspx"

abbrev pub empty_text : Text → Bool
empty_text [] = true
empty_text (c ∷ s) = false

module _ {S : Type 0} (p : Portal S) (url_ttl : ℕ) where
  unfoldable pub peek_cached_subpage_url : Text → Text → World S → Option Text
  unfolding cache_key
  peek_cached_subpage_url module_name keyword w =
      elim (lookup (cache_key module_name keyword) w.urls) [
        | none ↦ none
        | some e ↦
            if not (empty_text e.subpage_href) && ltb (p.time w.server) e.expires_at
            then some e.subpage_href
            else none
      ]

  -- _resolved_url_cache[key] = (launcher, subpage, now + ttl)
  abbrev store_url : Text × Text → Text → Text → World S → World S
  store_url key launcher subpage w = record w {
    urls =
        insert key
          (record {
            launcher_href = launcher;
            subpage_href = subpage;
            expires_at = p.time w.server + url_ttl;
          })
          w.urls;
  }

  unfoldable pub touch_resolved_url : Text → Text → World S → World S
  unfolding cache_key
  touch_resolved_url module_name keyword w = elim (lookup (cache_key module_name keyword) w.urls) [
    | none ↦ w
    | some e ↦ store_url (cache_key module_name keyword) e.launcher_href e.subpage_href w
  ]

  abbrev found : Option Text → Result Text
  found none = fail workflow
  found (some []) = fail workflow
  found (some (c ∷ s)) = ok (c ∷ s)

  -- A page of the resolution: its status and the login form are checked.
  abbrev checked : Response → Result Text
  checked r =
      if not (r.status_code == 200)
      then fail workflow
      else if is_login_page r.text
      then fail session_expired
      else ok r.text

  -- The steps without the cache: the home page, the launcher, the link of the sub-page.
  unfoldable pub full_resolve : Text → Text → M S Text
  unfolding get cache_key is_login_page
  full_resolve module_name keyword = do
    home ← get p true home_page_url
    home_html ← λ w. (w, checked home)
    launcher ← λ w. (w, found (p.find_launcher_by_module_name home_html module_name))
    page ← get p true launcher
    launcher_html ← λ w. (w, checked page)
    subpage ← λ w. (w, found (p.find_subpage_link launcher_html keyword))
    λ w. (store_url (cache_key module_name keyword) launcher subpage w, ok (p.absolute subpage))

  -- The sub-page that the answer of a cached launcher gives, if it is in order.
  abbrev cached_subpage : Text → CachedUrl → Option Response → Option Text
  cached_subpage keyword e none = none
  cached_subpage keyword e (some r) =
      if (r.status_code == 200) && not (is_login_page r.text) && not (is_error_page r.text r)
      then if empty_text e.subpage_href
        then (elim (p.find_subpage_link r.text keyword) [
          | none ↦ none
          | some s ↦ if empty_text s then none else some s
        ])
        else some e.subpage_href
      else none

  abbrev drop_url : Text × Text → World S → World S
  drop_url key w = record w { urls = erase key w.urls }

  abbrev after_launcher :
      Text → Text → CachedUrl → World S × Option Response → World S × Result Text
  unfolding full_resolve
  after_launcher module_name keyword e (w, answer) = elim (cached_subpage keyword e answer) [
    | some subpage ↦ (
      store_url (cache_key module_name keyword) e.launcher_href subpage w,
      ok (p.absolute subpage),
    )
    | none ↦ full_resolve module_name keyword (drop_url (cache_key module_name keyword) w)
  ]

  abbrev visit : Text → World S → World S × Option Response
  visit url w =
      let (s, r) = p.get true url w.server in
      (record w { server = s; requests = w.requests + 1 }, r)

  unfoldable pub resolve_module_subpage_url : Text → Text → M S Text
  unfolding full_resolve cache_key
  resolve_module_subpage_url module_name keyword w =
      elim (lookup (cache_key module_name keyword) w.urls) [
        | none ↦ full_resolve module_name keyword w
        | some e ↦
            if ltb (p.time w.server) e.expires_at
            then after_launcher module_name keyword e (visit e.launcher_href w)
            else full_resolve module_name keyword w
      ]
