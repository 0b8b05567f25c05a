-- ===== src/Core/Security.antt =====
-- app/core/security.py: who is calling, may they, and is this a forgery. Looking a session up may
-- delete it, so each of these also returns the session store. `hmac.compare_digest` is an equation.
pub mod Guards
use insatomcat_webui.Base.{
  ℕ, String, Bool, true, false, not, ◌&&◌, Option, none, some, List, [], ◌∷◌, ◌==◌, Value, dict_of,
  if◌then◌else◌, Dict, lookup, concat, member, Result, ok, err, or_else,
}
use insatomcat_webui.Core.Errors.{
  ApiError, authentication_required, permission_denied, JsonResponse,
}
use insatomcat_webui.Core.Settings.{Settings}
use insatomcat_webui.Core.Auth.{Role, role_value, can, User}
use insatomcat_webui.Core.Sessions.{Session, SessionStore, session_user, resolve, sign}

abbrev pub safe_methods : List String
safe_methods = "GET" ∷ "HEAD" ∷ "OPTIONS" ∷ "TRACE" ∷ []

-- What the code reads of a request.
pub record Request : Type 0 where
  pub method : String
  pub cookies : Dict String
  pub headers : Dict String

-- A cookie of the response; the two that are set differ in `httponly` only.
pub record Cookie : Type 0 where
  pub name : String
  pub value : String
  pub max_age : ℕ
  pub httponly : Bool
  pub secure : Bool
  pub samesite : String
  pub path : String

-- What becomes of a request: it goes on to the handlers, or it is answered at once.
pub data Passage : Type 0 where
  forwarded : Passage
  refused : JsonResponse → Passage

abbrev pub csrf_failure : JsonResponse
csrf_failure = record {
  status = 403;
  content = dict_of (
      (
        "error",
        dict_of (
            ("code", Value.str "csrf_failed")
            ∷ (
              "message",
              Value.str "The request is missing a valid CSRF token. Reload the page and retry.",
            )
            ∷ ("detail", dict_of [])
            ∷ []),
      )
      ∷ []);
}

-- `if not cookie` for an optional text
abbrev pub is_truthy : Option String → Bool
is_truthy none = false
is_truthy (some s) = not (s == "")

module _ (hmac : String → String) (settings : Settings) (now : ℕ) where
  unfoldable pub current_session : Request → SessionStore → SessionStore × Option Session
  current_session request store =
      resolve hmac now (lookup settings.session_cookie_name request.cookies) store

  abbrev pub user_of : SessionStore × Option Session → SessionStore × Result ApiError User
  user_of (store, none) = (store, err authentication_required)
  user_of (store, some s) = (store, ok (session_user s))

  unfoldable pub require_user : Request → SessionStore → SessionStore × Result ApiError User
  unfolding current_session
  require_user request store = user_of (current_session request store)

  abbrev allowed : Role → SessionStore × Result ApiError User → SessionStore × Result ApiError User
  allowed required (store, err e) = (store, err e)
  allowed required (store, ok user) =
      if not (can user.role required)
      then (
        store,
        err (
            permission_denied
              (concat ("This action requires the " ∷ role_value required ∷ " role." ∷ []))
              (("required", Value.str (role_value required))
                ∷ ("role", Value.str (role_value user.role))
                ∷ [])),
      )
      else (store, ok user)

  unfoldable pub require_role : Role → Request → SessionStore → SessionStore × Result ApiError User
  unfolding require_user
  require_role required request store = allowed required (require_user request store)

  abbrev compared : String → SessionStore × Option Session → SessionStore × Passage
  compared supplied (store, none) = (store, forwarded)
  compared supplied (store, some s) =
      if not (supplied == s.csrf_token) then (store, refused csrf_failure) else (store, forwarded)

  -- `CsrfMiddleware.dispatch`
  unfoldable pub dispatch : Request → SessionStore → SessionStore × Passage
  unfolding current_session
  dispatch request store =
      if not (member request.method safe_methods)
        && is_truthy (lookup settings.session_cookie_name request.cookies)
      then compared (or_else (lookup settings.csrf_header_name request.headers) "")
          (current_session request store)
      else (store, forwarded)

  unfoldable pub set_session_cookies : Session → List Cookie
  set_session_cookies session =
      record {
        name = settings.session_cookie_name;
        value = sign hmac session.id;
        max_age = settings.session_ttl_seconds;
        httponly = true;
        secure = true;
        samesite = "lax";
        path = "/";
      }
      ∷ record {
        name = settings.csrf_cookie_name;
        value = session.csrf_token;
        max_age = settings.session_ttl_seconds;
        httponly = false;
        secure = true;
        samesite = "lax";
        path = "/";
      }
      ∷ []

-- The names and the path of the cookies that `clear_session_cookies` deletes.
unfoldable pub clear_session_cookies : Settings → List (String × String)
clear_session_cookies settings =
    (settings.session_cookie_name, "/") ∷ (settings.csrf_cookie_name, "/") ∷ []
