-- ===== src/Tests/Access.antt =====
-- Accounts, sessions and requests at concrete inputs.
use insatomcat_webui.Base.{
  is_some, ℕ, ◌+◌, String, ◌≡◌, ◌↔◌, refl, true, false, none, some, [], ◌∷◌, ◌==◌, if◌then◌else◌,
  ltb, arith, lookup, lookup-nil, LacksCode, or_else, member, ok, err, List, partition_string,
  ascii_only,
}
use insatomcat_webui.Ui.{login as login_path}
use insatomcat_webui.Ui.Redirects.{browse, browse-Shown}
use insatomcat_webui.Core.Settings.{default_settings}
use insatomcat_webui.Core.Auth.{admin, operator, rank, User, Accounts, can, is_member, role_for}
use insatomcat_webui.Core.Auth.Roles.{IsRootLogin, Grants, role_for-Grants}
use insatomcat_webui.Core.Sessions.{Session, SessionStore, create, get, sign, unsign, resolve}
use insatomcat_webui.Core.Sessions.Expiry.{IsValid}
use insatomcat_webui.Core.Sessions.Refinement.{
  Command, creates, gets, deletes, answers, ideal_answers, answers-ideal_answers,
}
use insatomcat_webui.Core.Sessions.Cookies.{resolve-create}
use insatomcat_webui.Core.Security.{
  Request, Cookie, set_session_cookies, forwarded, safe_methods, current_session, require_role,
  dispatch,
}
use insatomcat_webui.Core.Security.Guards.{dispatch_iff}
use insatomcat_webui.Core.Errors.{authentication_required}
use insatomcat_webui.Api.Auth.{identity_of, login, logout, me}
use insatomcat_webui.Api.Auth.Visits.{sent_back, login-me, logout-me}

abbrev accounts : Accounts
accounts = record {
  group = (λ g.
      if g == "seapath-operator"
      then some (record { gid = 1000; members = "alice" ∷ [] })
      else none);
  primary_gid = (λ u. none);
}

role_for-Grants_example :
    Grants accounts default_settings "alice" (role_for accounts default_settings "alice")
    × (IsRootLogin default_settings "alice"
        → role_for accounts default_settings "alice" ≡ some admin)
    × (is_member accounts "alice" "seapath-admin" ≡ true
        → role_for accounts default_settings "alice" ≡ some admin)
role_for-Grants_example = role_for-Grants accounts default_settings "alice"

abbrev pub alice : User
alice = record { username = "alice"; role = operator }

abbrev pub session : Session
session = record {
  id = "sid";
  username = "alice";
  role = operator;
  csrf_token = "token";
  created_at = 100;
  expires_at = 200;
}

abbrev pub sessions : SessionStore
sessions = record { ttl = 100; sessions = ("sid", session) ∷ [] }

pub sessions-IsValid : IsValid sessions
sessions-IsValid = (refl, lookup-nil "sid", tt)

abbrev pub mac : String → String
mac text = if text == "sid" then "f00d" else "beef"

session_found : (resolve mac 150 (some "sid.f00d") sessions).1 ≡ some session
unfolding resolve unsign get lookup partition_string ascii_only
session_found = refl

next-LacksCode : LacksCode b'.' "next"
next-LacksCode = (ground arith, (ground arith, (ground arith, (ground arith, tt))))

resolve-create_example :
    (resolve mac 310 (some (sign mac "next")) (create 200 "next" "other" alice sessions).0).1
    ≡ (if ltb 310 (200 + 100) then some (create 200 "next" "other" alice sessions).1 else none)
resolve-create_example =
    resolve-create mac sessions 200 310 "next" "other" alice sessions-IsValid (ground arith)
      next-LacksCode

abbrev pub request : Request
request = record {
  method = "POST";
  cookies = ("seapath_session", "sid.f00d") ∷ [];
  headers = ("X-CSRF-Token", "token") ∷ [];
}

request_allowed : (require_role mac default_settings 150 operator request sessions).1 ≡ ok alice
unfolding require_role current_session resolve unsign get lookup can partition_string ascii_only
request_allowed = refl

-- An administrator may do what an operator may, and not the other way round.
can_ordered :
    (can admin operator ≡ true) × (can operator operator ≡ true) × (can operator admin ≡ false)
unfolding can rank
can_ordered = (refl, refl, refl)

dispatch_iff_example : ((dispatch mac default_settings 150 request sessions).1 ≡ forwarded) ↔ (
    (s : Session)
    → member "POST" safe_methods ≡ false
    → (current_session mac default_settings 150 request sessions).1 ≡ some s
    → or_else (lookup "X-CSRF-Token" request.headers) "" ≡ s.csrf_token)
dispatch_iff_example = dispatch_iff mac default_settings 150 request sessions

abbrev next_cookies : List Cookie
next_cookies =
    set_session_cookies mac default_settings 200 (create 200 "next" "other" alice sessions).1

login-me_example :
    let (opened, answer) =
      login mac default_settings "node1" "standalone" 200
        (λ u p. p == "secret")
        (λ u. some operator)
        "next"
        "other"
        "alice"
        "secret"
        sessions in
    let request = sent_back default_settings next_cookies "POST" "other" in
    (answer
      ≡ ok (
        record (identity_of mac default_settings "node1" "standalone" 200 alice) {
          csrf_token = some "other";
        },
        next_cookies,
      ))
    × ((dispatch mac default_settings 250 request opened).1 ≡ forwarded)
    × ((me mac default_settings "node1" "standalone" 250 request opened).1 ≡ (
        if ltb 250 (200 + 100)
        then ok (identity_of mac default_settings "node1" "standalone" 250 alice)
        else err authentication_required))
unfolding create
login-me_example =
    login-me mac default_settings "node1" "standalone" sessions 200 250 "next" "other" "alice"
      operator sessions-IsValid (ground arith) next-LacksCode (λ u p. p == "secret")
      (λ u. some operator) "secret" "POST" refl refl

logout-me_example :
    (me mac default_settings "node1" "standalone" 160 request
      (logout mac default_settings "node1" "standalone" 150 request sessions).0).1
    ≡ err authentication_required
logout-me_example =
    logout-me mac default_settings "node1" "standalone" 150 160 request sessions sessions-IsValid

abbrev visits : List (ℕ × Command)
visits =
    (150, gets "sid")
    ∷ (160, creates "next" "other" alice)
    ∷ (199, gets "sid")
    ∷ (210, gets "sid")
    ∷ (220, deletes "next")
    ∷ (230, gets "next")
    ∷ []

answers-ideal_answers_example :
    answers visits sessions ≡ ideal_answers 100 visits (λ id. lookup id sessions.sessions)
answers-ideal_answers_example = answers-ideal_answers 100 visits sessions sessions-IsValid (
  ground arith,
  (ground arith, (ground arith, (ground arith, (ground arith, (ground arith, tt))))),
)

abbrev asked : Request
asked = record request { method = "GET" }

browse-Shown_example :
    is_some (browse mac default_settings asked (150 ∷ 200 ∷ 210 ∷ []) login_path sessions) ≡ true
browse-Shown_example =
    browse-Shown mac default_settings asked 150 200 210 login_path sessions (ground arith)
      (ground arith)
