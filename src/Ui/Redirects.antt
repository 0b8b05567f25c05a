-- ===== src/Ui/Redirects.antt =====
-- A browser that follows the redirects between the pages.
use insatomcat_webui.Base.{
  ℕ, ◌≤◌, String, ◌≡◌, true, Option, is_some, none, some, List, [], ◌∷◌, arith, lookup,
}
use insatomcat_webui.Core.Settings.{Settings}
use insatomcat_webui.Core.Sessions.{resolve, SessionStore}
use insatomcat_webui.Core.Sessions.Missed.{missed_again}
use insatomcat_webui.Core.Security.{Request, current_session}
use insatomcat_webui.Ui.{Route, index, setup, runs, login, template, redirect, visit}

-- The page that a browser arrives at, which follows each redirect with the same request, and asks at these times.
unfoldable pub browse :
    (String → String) → Settings → Request → List ℕ → Route → SessionStore → Option String
browse hmac settings request [] route store = none
browse hmac settings request (now ∷ later) route store =
    let (after, answer) = visit hmac settings request now route store in
    elim answer [
      | template name ↦ some name
      | redirect to ↦ browse hmac settings request later to after
    ]

module _ (hmac : String → String) (settings : Settings) (request : Request) where
  abbrev cookie : Option String
  cookie = lookup settings.session_cookie_name request.cookies

  -- A browser that follows redirects with the same request reaches a page within three requests, from
  -- every path and whatever session expires between them.
  pub browse-Shown :
      (first second third : ℕ) (route : Route) (store : SessionStore)
      → first ≤ second
      → second ≤ third
      → is_some (browse hmac settings request (first ∷ second ∷ third ∷ []) route store) ≡ true
  unfolding browse visit current_session
  browse-Shown first second third index store h₁ h₂ =
      ground (arith, missed_again hmac first second cookie store h₁)
  browse-Shown first second third setup store h₁ h₂ =
      ground (arith, missed_again hmac first second cookie store h₁)
  browse-Shown first second third runs store h₁ h₂ =
      ground (arith, missed_again hmac first second cookie store h₁)
  browse-Shown first second third login store h₁ h₂ =
      ground (arith, missed_again hmac second third cookie (resolve hmac first cookie store).0 h₂)
