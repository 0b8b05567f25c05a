-- ===== src/Core/Auth.antt =====
-- app/core/auth.py: roles, PAM authentication and the role of a Unix account.
pub mod Roles
use insatomcat_webui.Base.{
  ℕ, String, Bool, true, false, not, ◌&&◌, ◌||◌, Option, none, some, List, [], ◌∷◌, ◌==◌, ◌=?◌, leb,
  if◌then◌else◌, member,
}
use insatomcat_webui.Core.Settings.{Settings}

pub data Role : Type 0 where
  admin operator viewer : Role

abbrev pub role_value : Role → String
role_value admin = "admin"
role_value operator = "operator"
role_value viewer = "viewer"

unfoldable pub rank : Role → ℕ
rank viewer = 0
rank operator = 1
rank admin = 2

unfoldable pub can : Role → Role → Bool
unfolding rank
can self required = leb (rank required) (rank self)

pub record User : Type 0 where
  pub username : String
  pub role : Role

-- `grp.getgrnam` and `pwd.getpwnam`; a missing entry is their `KeyError`.
pub record GroupEntry : Type 0 where
  pub gid : ℕ
  pub members : List String

pub record Accounts : Type 0 where
  pub group : String → Option GroupEntry
  pub primary_gid : String → Option ℕ

abbrev has_gid : ℕ → Option ℕ → Bool
has_gid gid none = false
has_gid gid (some g) = g =? gid

abbrev in_group : Accounts → String → Option GroupEntry → Bool
in_group accounts username none = false
in_group accounts username (some entry) =
    if member username entry.members
    then true
    else has_gid entry.gid (accounts.primary_gid username)

unfoldable pub is_member : Accounts → String → String → Bool
is_member accounts username group = in_group accounts username (accounts.group group)

first_role : Accounts → String → List (String × Role) → Option Role
unfolding is_member
first_role accounts username [] = none
first_role accounts username ((group, role) ∷ rest) =
    let later = first_role accounts username rest in
    if is_member accounts username group then some role else later

-- `UnixGroupDirectory.role_for`
unfoldable pub role_for : Accounts → Settings → String → Option Role
unfolding first_role
role_for accounts settings username =
    if settings.allow_root_login && username == "root"
    then some admin
    else first_role accounts username (
        (settings.admin_group, admin)
        ∷ (settings.operator_group, operator)
        ∷ (settings.viewer_group, viewer)
        ∷ [])

-- `PamAuthenticator.authenticate`; the call of PAM is `pam`.
unfoldable pub authenticate : (String → String → Bool) → String → String → Bool
authenticate pam username password =
    if username == "" || password == "" then false else pam username password

-- `DevAuthenticator` and `DevRoleDirectory`, behind the `use_fakes` switch
unfoldable pub dev_authenticate : String → String → Bool
dev_authenticate username password = not (username == "") && not (password == "")

unfoldable pub dev_role_for : String → Option Role
dev_role_for username = some admin
