-- ===== src/Core/Sessions.antt =====
-- app/core/sessions.py: the sessions in memory, and the signed cookie. Times are counted in ticks;
-- the time, the random tokens and the HMAC under the node's secret are arguments.
pub mod Expiry
pub mod Cookies
pub mod Refinement
pub mod Missed
use insatomcat_webui.Base.{
  ℕ, ◌+◌, String, Bool, true, false, not, Option, none, some, List, [], ◌∷◌, leb, ltb, ◌==◌,
  if◌then◌else◌, Dict, lookup, insert, delete, keep, concat, partition_string, ascii_only,
}
use insatomcat_webui.Core.Auth.{Role, User}

pub record Session : Type 0 where
  pub id : String
  pub username : String
  pub role : Role
  pub csrf_token : String
  pub created_at : ℕ
  pub expires_at : ℕ

abbrev pub session_user : Session → User
session_user s = record { username = s.username; role = s.role }

pub record SessionStore : Type 0 where
  pub ttl : ℕ
  pub sessions : Dict Session

unfoldable pub expired : ℕ → Session → Bool
expired now s = leb s.expires_at now

-- `_purge`: every expired item of the dictionary is deleted.
unfoldable pub purge : ℕ → SessionStore → SessionStore
unfolding expired
purge now store = record store { sessions = keep (λ e. not (expired now e.1)) store.sessions }

abbrev pub new_session : SessionStore → ℕ → String → String → User → Session
new_session store now id token user = record {
  id = id;
  username = user.username;
  role = user.role;
  csrf_token = token;
  created_at = now;
  expires_at = now + store.ttl;
}

-- `create`, at the time `now` and with the two random tokens
unfoldable pub create : ℕ → String → String → User → SessionStore → SessionStore × Session
unfolding purge
create now id token user store =
    let session = new_session store now id token user in
    (purge now (record store { sessions = insert id session store.sessions }), session)

abbrev got : ℕ → Option Session → SessionStore → SessionStore × Option Session
got now none store = (store, none)
got now (some s) store =
    if expired now s
    then (record store { sessions = delete s.id store.sessions }, none)
    else (store, some s)

unfoldable pub get : ℕ → String → SessionStore → SessionStore × Option Session
unfolding expired
get now id store = got now (lookup id store.sessions) store

-- `delete` of the store
unfoldable pub drop : String → SessionStore → SessionStore
drop id store = record store { sessions = delete id store.sessions }

module _ (hmac : String → String) where
  unfoldable pub signature : String → String
  signature id = hmac (ascii_only id)

  unfoldable pub sign : String → String
  unfolding signature
  sign id = concat (id ∷ "." ∷ signature id ∷ [])

  abbrev checked : String × Bool × String → Option String
  checked (id, found, given) =
      if not found then none else if not (given == signature id) then none else some id

  unfoldable pub unsign : String → Option String
  unfolding signature
  unsign cookie = checked (partition_string b'.' cookie)

  abbrev pub looked_up : ℕ → Option String → SessionStore → SessionStore × Option Session
  looked_up now none store = (store, none)
  looked_up now (some id) store = get now id store

  -- `resolve`; a missing cookie is falsy, and so is an empty one
  unfoldable pub resolve : ℕ → Option String → SessionStore → SessionStore × Option Session
  unfolding unsign
  resolve now none store = (store, none)
  resolve now (some cookie) store =
      if cookie == "" then (store, none) else looked_up now (unsign cookie) store
