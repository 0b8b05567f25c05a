-- ===== src/Api/Endpoint.antt =====
-- What stands in front of a handler of app/api/v1, and what leaves it: the dependency on a role, and
-- the errors that FastAPI turns into answers.
pub mod Guarded
use insatomcat_webui.Base.{ℕ, String, Result, ok, err}
use insatomcat_webui.Core.Errors.{ApiError}
use insatomcat_webui.Core.Settings.{Settings}
use insatomcat_webui.Core.Auth.{Role, User}
use insatomcat_webui.Core.Sessions.{SessionStore}
use insatomcat_webui.Core.Security.{Request, require_role}

-- An error of the API, or an exception that ends in a server error.
pub data Problem : Type 0 where
  api : ApiError → Problem
  raised : Problem

abbrev pub Reply {ℓ} : Type ℓ → Type ℓ
Reply A = Result Problem A

module _ {ℓ κ} {S : Type ℓ} {A : Type κ} where
  abbrev pub handled :
      (User → S → S × Reply A)
      → S
      → SessionStore × Result ApiError User
      → SessionStore × S × Reply A
  handled handler state (sessions, err e) = (sessions, state, err (Problem.api e))
  handled handler state (sessions, ok user) =
      let (state', reply) = handler user state in (sessions, state', reply)

  -- a handler behind `Depends(require_role(required))`
  unfoldable pub guarded :
      (String → String)
      → Settings
      → ℕ
      → Role
      → Request
      → (User → S → S × Reply A)
      → SessionStore
      → S
      → SessionStore × S × Reply A
  guarded hmac settings now required request handler sessions state =
      handled handler state (require_role hmac settings now required request sessions)
