-- ===== src/Api/Auth.antt =====
-- app/api/v1/auth.py: login, logout and the identity of the caller. The answer of the host reader is
-- an argument; the audit messages are left out.
pub mod Visits
use insatomcat_webui.Base.{
  ℕ, String, Bool, not, Option, none, some, List, [], ◌∷◌, if◌then◌else◌, Result, ok, err,
}
use insatomcat_webui.Core.Errors.{ApiError}
use insatomcat_webui.Core.Settings.{Settings}
use insatomcat_webui.Core.Auth.{Role, User}
use insatomcat_webui.Core.Sessions.{Session, SessionStore, session_user, create, drop}
use insatomcat_webui.Core.Security.{
  Request, Cookie, current_session, require_user, set_session_cookies, clear_session_cookies,
}

pub record Identity : Type 0 where
  pub username : String
  pub role : Role
  pub node : String
  pub mode : String
  pub csrf_token : Option String

abbrev pub invalid_credentials : ApiError
invalid_credentials = record {
  code = "invalid_credentials";
  message = "Wrong user name or password.";
  status = 401;
  detail = [];
}

abbrev pub no_role : ApiError
no_role = record {
  code = "no_role";
  message =
      "This account is not a member of any SEAPATH group. Add it to seapath-admin, seapath-operator or seapath-viewer.";
  status = 403;
  detail = [];
}

module _ (hmac : String → String) (settings : Settings) (node mode : String) (now : ℕ) where
  -- `_identity`
  abbrev pub identity_of : User → Identity
  identity_of user = record {
    username = user.username;
    role = user.role;
    node = node;
    mode = mode;
    csrf_token = none;
  }

  abbrev opened : SessionStore × Session → SessionStore × Result ApiError (Identity × List Cookie)
  opened (store, session) = (
    store,
    ok (
      record (identity_of (session_user session)) { csrf_token = some session.csrf_token },
      set_session_cookies hmac settings now session,
    ),
  )

  abbrev admitted :
      String
      → String
      → String
      → Option Role
      → SessionStore
      → SessionStore × Result ApiError (Identity × List Cookie)
  admitted id token username none store = (store, err no_role)
  admitted id token username (some role) store =
      opened (create now id token (record { username = username; role = role }) store)

  -- `login`, with the two random tokens: the identity and the cookies of the response
  unfoldable pub login :
      (String → String → Bool)
      → (String → Option Role)
      → String
      → String
      → String
      → String
      → SessionStore
      → SessionStore × Result ApiError (Identity × List Cookie)
  login authenticate role_for id token username password store =
      if not (authenticate username password)
      then (store, err invalid_credentials)
      else admitted id token username (role_for username) store

  abbrev pub ended : SessionStore × Option Session → SessionStore
  ended (store, none) = store
  ended (store, some session) = drop session.id store

  -- `logout`: the cookies that the response deletes
  unfoldable pub logout : Request → SessionStore → SessionStore × List (String × String)
  logout request store =
      (ended (current_session hmac settings now request store), clear_session_cookies settings)

  abbrev pub identified :
      SessionStore × Result ApiError User → SessionStore × Result ApiError Identity
  identified (store, err e) = (store, err e)
  identified (store, ok user) = (store, ok (identity_of user))

  -- `me`
  unfoldable pub me : Request → SessionStore → SessionStore × Result ApiError Identity
  me request store = identified (require_user hmac settings now request store)
