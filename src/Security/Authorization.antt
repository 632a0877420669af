-- ===== src/Security/Authorization.antt =====
-- The policy decision of src/fabric_shortcut_proxy/security/authorization.py.
pub mod Policy
use fabric_shortcut_proxy.Prelude.{
  contains, String, str_eq, Bool, true, false, not, ◌&&◌, ◌||◌, Option, none, some, List, [], ◌∷◌,
  ◌++◌, if◌then◌else◌, any, all,
}
use fabric_shortcut_proxy.Dict.{Dict, lookup, has_key}

unfoldable pub known_permissions : List String
known_permissions =
    "monitor.read" ∷ "troubleshoot.read" ∷ "config.read" ∷ "config.write" ∷ "storage.mount.inspect"
    ∷ "tokenization.assign" ∷ "tokenization.policy.read" ∷ "tokenization.policy.admin"
    ∷ "tokenization.reidentify" ∷ "security.metadata.read" ∷ "security.credentials.admin"
    ∷ "users.admin" ∷ "system.admin" ∷ []

without : String → List String → List String
without x [] = []
without x (y ∷ ys) = let rest = without x ys in if str_eq y x then rest else y ∷ rest

unfoldable pub role_table : Dict (List String)
unfolding known_permissions without
role_table =
    ("viewer", "monitor.read" ∷ [])
    ∷ ("monitor_troubleshooter", "monitor.read" ∷ "troubleshoot.read" ∷ [])
    ∷ (
      "config_operator",
      "monitor.read" ∷ "troubleshoot.read" ∷ "config.read" ∷ "config.write"
          ∷ "storage.mount.inspect" ∷ "tokenization.assign" ∷ [],
    )
    ∷ (
      "tokenization_administrator",
      "monitor.read" ∷ "troubleshoot.read" ∷ "tokenization.assign" ∷ "tokenization.policy.read"
          ∷ "tokenization.policy.admin" ∷ [],
    )
    ∷ (
      "security_administrator",
      "monitor.read" ∷ "troubleshoot.read" ∷ "security.metadata.read" ∷ "security.credentials.admin"
          ∷ [],
    )
    ∷ ("user_administrator", "monitor.read" ∷ "troubleshoot.read" ∷ "users.admin" ∷ [])
    ∷ ("auditor", "tokenization.reidentify" ∷ [])
    ∷ ("system_administrator", without "tokenization.reidentify" known_permissions)
    ∷ []

pub record PermissionGrant : Type 0 where
  pub permission : String
  pub context : Dict String

pub record User : Type 0 where
  pub user_id : String
  pub roles : List String
  pub grants : List PermissionGrant
  pub enabled : Bool

-- The roles that `User.__post_init__` accepts.
abbrev pub knows_roles : User → Bool
knows_roles u = all (λ r. has_key r role_table) u.roles

or_empty : Option (List String) → List String
or_empty none = []
or_empty (some ps) = ps

-- `ROLE_PERMISSIONS[role]`; a role outside the table raises KeyError, and no user has one.
unfoldable pub role_permissions : String → List String
unfolding or_empty role_table lookup
role_permissions role = or_empty (lookup role role_table)

from_roles : List String → List String
unfolding role_permissions
from_roles [] = []
from_roles (r ∷ rs) = role_permissions r ++ from_roles rs

from_grants : List PermissionGrant → List String
from_grants [] = []
from_grants (g ∷ gs) =
    let rest = from_grants gs in elim g.context [ [] ↦ g.permission ∷ rest | _ ∷ _ ↦ rest ]

unfoldable pub permissions : User → List String
unfolding from_roles from_grants
permissions u = from_roles u.roles ++ from_grants u.grants

-- `requested.get(key) == value or value == "*"`
unfoldable pub entry_matches : Dict String → String × String → Bool
entry_matches requested (key, value) =
    (elim (lookup key requested) [ none ↦ false | some v ↦ str_eq v value ]) || str_eq value "*"

unfoldable pub grant_matches : String → Dict String → PermissionGrant → Bool
unfolding entry_matches
grant_matches permission requested g =
    str_eq g.permission permission && all (entry_matches requested) g.context

unfoldable pub can : User → String → Dict String → Bool
unfolding permissions grant_matches known_permissions
can u permission requested =
    if not u.enabled || not (contains known_permissions permission)
    then false
    else if contains (permissions u) permission
    then true
    else any (grant_matches permission requested) u.grants

pub record AuthorizationDecision : Type 0 where
  pub user_id : String
  pub permission : String
  pub context : Dict String
  pub allowed : Bool
  pub reason : String

decision : User → String → Dict String → Bool → String → AuthorizationDecision
decision u permission requested allowed reason = record {
  user_id = u.user_id;
  permission = permission;
  context = requested;
  allowed = allowed;
  reason = reason;
}

unfoldable pub authorize : User → String → Dict String → AuthorizationDecision
unfolding can known_permissions decision
authorize u permission requested =
    if not (contains known_permissions permission)
    then decision u permission requested false "unknown permission"
    else if not u.enabled
    then decision u permission requested false "user is disabled"
    else let allowed = can u permission requested in
      decision u permission requested allowed (if allowed then "allowed" else "permission denied")

-- `none` is `AuthorizationError("permission denied")`.
unfoldable pub require : User → String → Dict String → Option AuthorizationDecision
unfolding authorize
require u permission requested =
    let d = authorize u permission requested in if d.allowed then some d else none
