-- ===== src/Ui.antt =====
-- app/ui/routes.py: which page answers which request. The texts of the templates are left out.
pub mod Redirects
use insatomcat_webui.Base.{ℕ, String, Option, none, some}
use insatomcat_webui.Core.Settings.{Settings}
use insatomcat_webui.Core.Sessions.{Session, SessionStore}
use insatomcat_webui.Core.Security.{Request, current_session}

-- the paths "/", "/setup", "/runs" and "/login"
pub data Route : Type 0 where
  index setup runs login : Route

pub data Answer : Type 0 where
  template : String → Answer
  -- status 303
  redirect : Route → Answer

-- `_page` on the session that was found
abbrev pub page : String → SessionStore × Option Session → SessionStore × Answer
page name (store, none) = (store, redirect login)
page name (store, some s) = (store, template name)

abbrev pub login_page : SessionStore × Option Session → SessionStore × Answer
login_page (store, none) = (store, template "login.html")
login_page (store, some s) = (store, redirect index)

-- the handlers of the paths
abbrev pub answered : Route → SessionStore × Option Session → SessionStore × Answer
answered index found = page "node.html" found
answered setup found = page "setup.html" found
answered runs found = page "runs.html" found
answered login found = login_page found

unfoldable pub visit :
    (String → String) → Settings → Request → ℕ → Route → SessionStore → SessionStore × Answer
unfolding current_session
visit hmac settings request now route store =
    answered route (current_session hmac settings now request store)
