-- ===== src/Core/Sessions/Missed.antt =====
-- Looking a session up again.
use insatomcat_webui.Base.{
  ℕ, ◌≤◌, String, ◌≡◌, refl, true, Option, none, some, arith, lookup, lookup-delete,
}
use insatomcat_webui.Core.Sessions.{
  Session, SessionStore, expired, got, get, unsign, looked_up, resolve,
}

still_expired :
    (now later : ℕ) (s : Session) → now ≤ later → expired now s ≡ true → expired later s ≡ true
unfolding expired
still_expired now later s before h = ground arith

got-none :
    (now later : ℕ) (id : String) (o : Option Session) (store : SessionStore)
    → now ≤ later
    → lookup id store.sessions ≡ o
    → (got now o store).1 ≡ none
    → (got later (lookup id (got now o store).0.sessions) (got now o store).0).1 ≡ none
got-none now later id none store before found missed = rw found refl
got-none now later id (some s) store before found missed =
    ground (arith, lookup-delete s.id id store.sessions, still_expired now later s before)

get-none :
    (now later : ℕ) (id : String) (store : SessionStore)
    → now ≤ later
    → (get now id store).1 ≡ none
    → (get later id (get now id store).0).1 ≡ none
unfolding get
get-none now later id store before missed =
    got-none now later id (lookup id store.sessions) store before refl missed

module _ (hmac : String → String) where
  looked_up-none :
      (now later : ℕ) (id : Option String) (store : SessionStore)
      → now ≤ later
      → (looked_up hmac now id store).1 ≡ none
      → (looked_up hmac later id (looked_up hmac now id store).0).1 ≡ none
  looked_up-none now later none store before missed = refl
  looked_up-none now later (some id) store before missed = get-none now later id store before missed

  -- A cookie that led to no session leads to none later.
  pub missed_again :
      (now later : ℕ) (cookie : Option String) (store : SessionStore)
      → now ≤ later
      → (resolve hmac now cookie store).1 ≡ none
      → (resolve hmac later cookie (resolve hmac now cookie store).0).1 ≡ none
  unfolding resolve
  missed_again now later none store before missed = refl
  missed_again now later (some cookie) store before missed =
      ground (arith, looked_up-none now later (unsign hmac cookie) store before)
