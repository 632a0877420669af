-- ===== src/Tests/SecurityTests.antt =====
-- src/fabric_shortcut_proxy/security/authorization.py at concrete inputs.
use fabric_shortcut_proxy.Prelude.{contains, ◌≤◌, true, ◌&&◌, ◌||◌, [], ◌∷◌, ◌≡◌, refl, arith, any}
use fabric_shortcut_proxy.Dict.{lookup}
use fabric_shortcut_proxy.Security.Authorization.{
  known_permissions, PermissionGrant, User, role_permissions, grant_matches, can,
}
use fabric_shortcut_proxy.Security.Authorization.Policy.{can-Allowed}
use fabric_shortcut_proxy.Security.Directory.{Group, UserDirectory, enabled_admins, is_admin}
use fabric_shortcut_proxy.Security.Directory.Admins.{disable_all, administrator_survives}

abbrev grant : PermissionGrant
grant = record { permission = "config.write"; context = ("table", "sales") ∷ [] }

abbrev admin : User
admin = record { user_id = "ada"; roles = "system_administrator" ∷ []; grants = []; enabled = true }

abbrev viewer : User
viewer = record { user_id = "vic"; roles = "viewer" ∷ []; grants = grant ∷ []; enabled = true }

abbrev directory : UserDirectory
directory = record {
  users = ("ada", admin) ∷ ("vic", viewer) ∷ [];
  groups =
      (
        "g1",
        record {
          group_id = "g1";
          tenant_id = "t";
          roles = "viewer" ∷ "auditor" ∷ [];
          enabled = true;
        },
      )
      ∷ [];
}

abbrev odd_group : Group
odd_group = record {
  group_id = "g2";
  tenant_id = "t";
  roles = "viewer" ∷ "owner" ∷ [];
  enabled = true;
}

viewer_writes_sales : can viewer "config.write" (("table", "sales") ∷ []) ≡ true
unfolding can grant_matches lookup known_permissions
viewer_writes_sales = refl

can-Allowed_example : can viewer "config.write" (("table", "hr") ∷ []) ≡ (
    true
    && contains known_permissions "config.write"
    && (any (λ r. contains (role_permissions r) "config.write") ("viewer" ∷ [])
        || any (grant_matches "config.write" (("table", "hr") ∷ [])) (grant ∷ [])))
can-Allowed_example = can-Allowed viewer "config.write" (("table", "hr") ∷ [])

administrator_survives_example :
    1 ≤ enabled_admins (disable_all ("vic" ∷ "ada" ∷ []) directory).users
unfolding enabled_admins is_admin
administrator_survives_example =
    administrator_survives ("vic" ∷ "ada" ∷ []) directory (refl, (refl, tt)) (omega arith)
