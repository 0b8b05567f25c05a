-- ===== src/Core/Security/Guards.antt =====
-- What a guard has established when it lets a request through.
use insatomcat_webui.Base.{
  ap, ℕ, ◌<◌, String, ◌≡◌, refl, true, false, Option, none, some, arith, eq_iff, inl, inr, ◌↔◌,
  or_else, lookup, member, ok, Bool-cases,
}
use insatomcat_webui.Core.Settings.{Settings}
use insatomcat_webui.Core.Auth.{Role, can, User}
use insatomcat_webui.Core.Sessions.{Session, SessionStore, session_user, sign, resolve}
use insatomcat_webui.Core.Sessions.Expiry.{IsValid}
use insatomcat_webui.Core.Sessions.Cookies.{resolve_sound}
use insatomcat_webui.Core.Security.{
  Request, safe_methods, forwarded, is_truthy, current_session, user_of, allowed, require_role,
  compared, dispatch,
}

-- The session behind a request: a stored one that has not expired, whose signed identifier is the
-- request's cookie.
pub record Holds (hmac : String → String) (settings : Settings) (now : ℕ) (request : Request)
    (store : SessionStore) (s : Session) : Type 0 where
  pub signed : lookup settings.session_cookie_name request.cookies ≡ some (sign hmac s.id)
  pub stored : lookup s.id store.sessions ≡ some s
  pub alive : now < s.expires_at

module _ (hmac : String → String) (settings : Settings) (now : ℕ) where
  resolve-Holds :
      (o : Option String) (store : SessionStore) (s : Session)
      → IsValid store
      → (resolve hmac now o store).1 ≡ some s
      → (o ≡ some (sign hmac s.id)) × (lookup s.id store.sessions ≡ some s) × (now < s.expires_at)
  resolve-Holds none store s v h = absurd (unfold resolve in cc h)
  resolve-Holds (some cookie) store s v h =
      let (signed, stored, alive) = resolve_sound hmac now cookie store s v h in
      (ap some signed, stored, alive)

  allowed_sound :
      (required : Role) (r : SessionStore × Option Session) (user : User)
      → (allowed hmac settings now required (user_of hmac settings now r)).1 ≡ ok user
      → (s : Session) × (r.1 ≡ some s) × (user ≡ session_user s) × (can user.role required ≡ true)
  allowed_sound required (store, none) user h = absurd (cc)
  allowed_sound required (store, some s) user h = (s, refl, ground arith, ground arith)

  -- A handler that requires a role runs for a user only if the request's cookie is the signed
  -- identifier of a stored session that has not expired, whose user this is and whose role may do
  -- what the required role may do.
  pub require_role-Holds :
      (required : Role) (request : Request) (store : SessionStore) (user : User)
      → IsValid store
      → (require_role hmac settings now required request store).1 ≡ ok user
      → (s : Session) × Holds hmac settings now request store s
        × (user ≡ session_user s)
        × (can user.role required ≡ true)
  unfolding require_role
  require_role-Holds required request store user v h =
      let (s, found, same, may) =
        allowed_sound required (current_session hmac settings now request store) user h in
      let (signed, stored, alive) =
        resolve-Holds (lookup settings.session_cookie_name request.cookies) store s v
          (unfold current_session in found) in
      (s, record { signed = signed; stored = stored; alive = alive }, same, may)

  compared_iff :
      (supplied : String) (r : SessionStore × Option Session)
      → ((compared hmac settings now supplied r).1 ≡ forwarded)
        ↔ ((s : Session) → r.1 ≡ some s → supplied ≡ s.csrf_token)
  compared_iff supplied (store, none) = (λ h s e. absurd (cc e), λ h. refl)
  compared_iff supplied (store, some t) = (
    (λ h s e. ground (arith, eq_iff supplied t.csrf_token)),
    λ h. ground (arith, eq_iff supplied t.csrf_token, h t refl),
  )

  falsy_cookie :
      (o : Option String) (store : SessionStore)
      → is_truthy o ≡ false
      → (resolve hmac now o store).1 ≡ none
  unfolding resolve
  falsy_cookie none store h = refl
  falsy_cookie (some cookie) store h = ground arith

  no_session :
      (request : Request) (store : SessionStore)
      → is_truthy (lookup settings.session_cookie_name request.cookies) ≡ false
      → (current_session hmac settings now request store).1 ≡ none
  unfolding current_session
  no_session request store =
      falsy_cookie (lookup settings.session_cookie_name request.cookies) store

  -- An unsafe request that rides on a live session reaches the handlers exactly if its header
  -- repeats the session's token; any other request reaches them.
  pub dispatch_iff :
      (request : Request) (store : SessionStore)
      → ((dispatch hmac settings now request store).1 ≡ forwarded) ↔ (
          (s : Session)
          → member request.method safe_methods ≡ false
          → (current_session hmac settings now request store).1 ≡ some s
          → or_else (lookup settings.csrf_header_name request.headers) "" ≡ s.csrf_token)
  unfolding dispatch
  dispatch_iff request store = elim (Bool-cases (member request.method safe_methods)) [
    | inl safe ↦ (λ _ s unsafe. absurd (cc (safe, unsafe)), λ _. rw safe)
    | inr unsafe ↦
        elim (Bool-cases (is_truthy (lookup settings.session_cookie_name request.cookies))) [
          | inl rides ↦ (
            (λ h s _ e.
                (compared_iff _ (current_session hmac settings now request store)).0
                  (rw (unsafe, rides) at h) s e),
            λ h.
                rw (unsafe, rides)
                  ((compared_iff _ (current_session hmac settings now request store)).1
                    (λ s e. h s unsafe e)),
          )
          | inr falsy ↦ (
            (λ _ s _ e. absurd (cc (no_session request store falsy, e))),
            λ _. rw (unsafe, falsy),
          )
        ]
  ]
