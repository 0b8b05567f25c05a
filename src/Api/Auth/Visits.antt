-- ===== src/Api/Auth/Visits.antt =====
-- What the requests behind a login and behind a logout come to.
use insatomcat_webui.Base.{
  ℕ, ◌+◌, ◌≤◌, String, ◌≡◌, refl, sym, ◌∙◌, inl, inr, Bool, true, false, Option, none, some, List,
  [], ◌∷◌, ◌==◌, eq_refl, if◌then◌else◌, map, Bool-cases, lookup, lookup-delete, ltb, LacksCode, ok,
  err, or_else,
}
use insatomcat_webui.Core.Errors.{authentication_required}
use insatomcat_webui.Core.Settings.{Settings}
use insatomcat_webui.Core.Auth.{Role, User}
use insatomcat_webui.Core.Sessions.{
  Session, SessionStore, session_user, new_session, create, get, drop, unsign, looked_up, resolve,
}
use insatomcat_webui.Core.Sessions.Expiry.{IsValid, get-GetsLive, get_sound}
use insatomcat_webui.Core.Sessions.Cookies.{resolve-create}
use insatomcat_webui.Core.Security.{
  Request, Cookie, forwarded, user_of, current_session, require_user, dispatch, set_session_cookies,
}
use insatomcat_webui.Core.Security.Guards.{dispatch_iff}
use insatomcat_webui.Api.Auth.{identity_of, login, logout, ended, identified, me}

-- The request of a browser that sends back the cookies it got, with a token in the CSRF header.
abbrev pub sent_back : Settings → List Cookie → String → String → Request
sent_back settings cookies method token = record {
  method = method;
  cookies = map (λ c. (c.name, c.value)) cookies;
  headers = (settings.csrf_header_name, token) ∷ [];
}

module _ (hmac : String → String) (settings : Settings) (node mode : String) where
  gone_from :
      (now later : ℕ) (id : String) (r : SessionStore × Option Session)
      → lookup id r.0.sessions ≡ r.1
      → ((s : Session) → r.1 ≡ some s → s.id ≡ id)
      → (get later id (ended hmac settings node mode now r)).1 ≡ none
  unfolding get drop
  gone_from now later id (after, none) e h = rw e
  gone_from now later id (after, some s) e h = rw (h s refl, lookup-delete, eq_refl)

  gone :
      (now later : ℕ) (o : Option String) (store : SessionStore)
      → IsValid store
      → (looked_up hmac later o (ended hmac settings node mode now (looked_up hmac now o store))).1
        ≡ none
  gone now later none store v = refl
  gone now later (some id) store v =
      let (_, e, _) = get-GetsLive now id store v in
      gone_from now later id (get now id store) e (λ s k. (get_sound now id store s v k).0)

  gone_cookie :
      (now later : ℕ) (o : Option String) (store : SessionStore)
      → IsValid store
      → (resolve hmac later o (ended hmac settings node mode now (resolve hmac now o store))).1
        ≡ none
  unfolding resolve
  gone_cookie now later none store v = refl
  gone_cookie now later (some cookie) store v = elim (Bool-cases (cookie == "")) [
    | inl e ↦ rw e
    | inr e ↦ rw e (gone now later (unsign hmac cookie) store v)
  ]

  anonymous :
      (now : ℕ) (r : SessionStore × Option Session)
      → r.1 ≡ none
      → (identified hmac settings node mode now (user_of hmac settings now r)).1
        ≡ err authentication_required
  anonymous now (store, none) e = refl
  anonymous now (store, some s) e = absurd (cc e)

  known :
      (now : ℕ) (r : SessionStore × Option Session) (s : Session)
      → r.1 ≡ some s
      → (identified hmac settings node mode now (user_of hmac settings now r)).1
        ≡ ok (identity_of hmac settings node mode now (session_user s))
  known now (store, none) s e = absurd (cc e)
  known now (store, some t) s e = let k : t ≡ s = cc e in rw k

  -- A request that logged out carries no session any more, at whatever time it is sent again: `me`
  -- answers that authentication is required.
  pub logout-me :
      (now later : ℕ) (request : Request) (store : SessionStore)
      → IsValid store
      → (me hmac settings node mode later request
          (logout hmac settings node mode now request store).0).1
        ≡ err authentication_required
  unfolding me require_user logout current_session
  logout-me now later request store v =
      anonymous later _
        (gone_cookie now later (lookup settings.session_cookie_name request.cookies) store v)

  module _ (store : SessionStore) (now later : ℕ) (id token username : String) (role : Role)
      (v : IsValid store) (le : now ≤ later) (dotless : LacksCode b'.' id) where
    abbrev account : User
    account = record { username = username; role = role }

    abbrev session : Session
    session = new_session store now id token account

    abbrev pub cookies : List Cookie
    cookies = set_session_cookies hmac settings now session

    carried :
        (method : String)
        → (current_session hmac settings later
            (sent_back settings cookies method token)
            (create now id token account store).0).1
          ≡ (if ltb later (now + store.ttl) then some session else none)
    unfolding current_session set_session_cookies lookup create
    carried method =
        rw (eq_refl settings.session_cookie_name)
          (resolve-create hmac store now later id token account v le dotless)

    token_of :
        (b : Bool) (s : Session)
        → (if b then some session else none) ≡ some s
        → token ≡ s.csrf_token
    token_of true s e = cc e
    token_of false s e = absurd (cc e)

    header :
        or_else (lookup settings.csrf_header_name ((settings.csrf_header_name, token) ∷ [])) ""
        ≡ token
    unfolding lookup
    header = rw (eq_refl settings.csrf_header_name)

    passes :
        (method : String)
        → (dispatch hmac settings later
            (sent_back settings cookies method token)
            (create now id token account store).0).1
          ≡ forwarded
    passes method =
        (dispatch_iff hmac settings later _ _).1
          (λ s _ e. header ∙ token_of (ltb later (now + store.ttl)) s (sym (carried method) ∙ e))

    seen :
        (b : Bool) (r : SessionStore × Option Session)
        → r.1 ≡ (if b then some session else none)
        → (identified hmac settings node mode later (user_of hmac settings later r)).1 ≡ (
            if b
            then ok (identity_of hmac settings node mode later account)
            else err authentication_required)
    seen true r e = known later r session e
    seen false r e = anonymous later r e

    me-create :
        (method : String)
        → (me hmac settings node mode later
            (sent_back settings cookies method token)
            (create now id token account store).0).1
          ≡ (if ltb later (now + store.ttl)
              then ok (identity_of hmac settings node mode later account)
              else err authentication_required)
    unfolding me require_user
    me-create method = seen (ltb later (now + store.ttl)) _ (carried method)

    -- The cookies of a login, sent back with the token in the header, pass the CSRF middleware, and
    -- `me` answers the account with its role until the time to live has passed, and from then on that
    -- authentication is required. The identifier of the session holds no dot, and the login answers
    -- the identity with the token.
    pub login-me :
        (authenticate : String → String → Bool) (role_for : String → Option Role)
        (password method : String)
        → authenticate username password ≡ true
        → role_for username ≡ some role
        → let (opened, answer) =
            login hmac settings node mode now authenticate role_for id token username password
              store in
          let request = sent_back settings cookies method token in
          (answer
            ≡ ok (
              record (identity_of hmac settings node mode now account) { csrf_token = some token },
              cookies,
            ))
          × ((dispatch hmac settings later request opened).1 ≡ forwarded)
          × ((me hmac settings node mode later request opened).1 ≡ (
              if ltb later (now + store.ttl)
              then ok (identity_of hmac settings node mode later account)
              else err authentication_required))
    unfolding login create
    login-me authenticate role_for password method a r =
        rw (a, r) (refl, passes method, me-create method)
