-- ===== src/Core/Auth/Roles.antt =====
-- Which role an account has, and what the order of the roles allows.
use insatomcat_webui.Base.{String, ◌≡◌, ◌↔◌, ◌⊎◌, true, false, Option, none, some, arith, eq_iff}
use insatomcat_webui.Core.Settings.{Settings}
use insatomcat_webui.Core.Auth.{Role, admin, operator, viewer, can, Accounts, is_member, role_for}

-- The account is an administrator without any group.
abbrev pub IsRootLogin : Settings → String → Type 0
IsRootLogin settings username = (settings.allow_root_login ≡ true) × (username ≡ "root")

-- What the role of an account says of its groups.
abbrev pub Grants : Accounts → Settings → String → Option Role → Type 0
Grants accounts settings username (some admin) =
    IsRootLogin settings username ⊎ (is_member accounts username settings.admin_group ≡ true)
Grants accounts settings username (some operator) =
    (is_member accounts username settings.admin_group ≡ false)
    × (is_member accounts username settings.operator_group ≡ true)
Grants accounts settings username (some viewer) =
    (is_member accounts username settings.admin_group ≡ false)
    × (is_member accounts username settings.operator_group ≡ false)
    × (is_member accounts username settings.viewer_group ≡ true)
Grants accounts settings username none =
    (is_member accounts username settings.admin_group ≡ false)
    × (is_member accounts username settings.operator_group ≡ false)
    × (is_member accounts username settings.viewer_group ≡ false)

-- The role is that of the most privileged group that holds the account: administrator exactly for
-- root, where root may log in, and for the members of the administrators' group; operator only for
-- members of the operators' group that are no administrators; viewer likewise; and no role only for
-- an account in none of the three groups that is not such a root.
pub role_for-Grants :
    (accounts : Accounts) (settings : Settings) (username : String)
    → Grants accounts settings username (role_for accounts settings username)
      × (IsRootLogin settings username → role_for accounts settings username ≡ some admin)
      × (is_member accounts username settings.admin_group ≡ true
          → role_for accounts settings username ≡ some admin)
unfolding role_for
role_for-Grants accounts settings username =
    (ground (arith, eq_iff username "root"), ground (arith, eq_iff username "root"), ground arith)

-- A role may do what a second one may do exactly if it may do all that the second one may.
pub can_iff : (r s : Role) → (can r s ≡ true) ↔ ((t : Role) → can s t ≡ true → can r t ≡ true)
unfolding can
can_iff r s = (λ h t k. ground arith, λ h. h s (ground arith))
