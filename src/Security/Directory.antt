-- ===== src/Security/Directory.antt =====
-- `UserDirectory` of src/fabric_shortcut_proxy/security/authorization.py: users and directory
-- groups. A group arrives with its texts stripped, and its id in lower case.
pub mod Admins
use fabric_shortcut_proxy.Prelude.{
  contains, ℕ, String, str_eq, Bool, true, false, not, ◌&&◌, ◌||◌, Option, none, some, List, [],
  ◌∷◌, ◌++◌, if◌then◌else◌, any, all, sum_by, leb,
}
use fabric_shortcut_proxy.Dict.{Dict, lookup, insert, has_key}
use fabric_shortcut_proxy.Security.Authorization.{role_table, User, role_permissions}

pub record Group : Type 0 where
  pub group_id : String
  pub tenant_id : String
  pub roles : List String
  pub enabled : Bool

pub record UserDirectory : Type 0 where
  pub users : Dict User
  pub groups : Dict Group

pub data Outcome : Type 0 where
  done user_not_found last_administrator no_group_id unknown_roles : Outcome

unfoldable pub replace : User → UserDirectory → UserDirectory
replace u d = record d { users = insert u.user_id u d.users }

unfoldable pub is_admin : User → Bool
is_admin u = u.enabled && contains u.roles "system_administrator"

unfoldable pub enabled_admins : Dict User → ℕ
unfolding is_admin
enabled_admins users = sum_by (λ e. if is_admin e.1 then 1 else 0) users

disable_found : Option User → UserDirectory → UserDirectory × Outcome
unfolding enabled_admins
disable_found none d = (d, user_not_found)
disable_found (some u) d =
    if not u.enabled
    then (d, done)
    else if contains u.roles "system_administrator" && leb (enabled_admins d.users) 1
    then (d, last_administrator)
    else (record d { users = insert u.user_id (record u { enabled = false }) d.users }, done)

unfoldable pub disable : String → UserDirectory → UserDirectory × Outcome
unfolding disable_found
disable user_id d = disable_found (lookup user_id d.users) d

-- The group is stored before its roles are checked.
unfoldable pub replace_group : Group → UserDirectory → UserDirectory × Outcome
replace_group g d = if str_eq g.group_id "" then (d, no_group_id) else (
  record d { groups = insert g.group_id g d.groups },
  if all (λ r. has_key r role_table) g.roles then done else unknown_roles,
)

-- Tenants and ids in lower case.
groups_of : Dict Group → String → List String → List Group
groups_of [] tenant ids = []
groups_of ((k, g) ∷ gs) tenant ids =
    let rest = groups_of gs tenant ids in
    if contains ids k && g.enabled && str_eq g.tenant_id tenant then g ∷ rest else rest

unfoldable pub groups_for : String → List String → UserDirectory → List Group
unfolding groups_of
groups_for tenant ids d = groups_of d.groups tenant ids

-- `none` is the KeyError of `ROLE_PERMISSIONS[role]`.
unfoldable pub union_of : List String → Option (List String)
union_of [] = some []
union_of (r ∷ rs) =
    let rest = union_of rs in
    elim (lookup r role_table) [
      | none ↦ none
      | some ps ↦ elim rest [ none ↦ none | some qs ↦ some (ps ++ qs) ]
    ]

any_grants : List Group → String → Option Bool
unfolding union_of
any_grants [] x = some false
any_grants (g ∷ gs) x =
    let rest = any_grants gs x in
    elim (union_of g.roles) [ none ↦ none | some ps ↦ if contains ps x then some true else rest ]

unfoldable pub authorize_groups : String → List String → String → UserDirectory → Option Bool
unfolding groups_for any_grants
authorize_groups tenant ids x d = any_grants (groups_for tenant ids d) x

all_granted : List Group → Option (List String)
unfolding union_of
all_granted [] = some []
all_granted (g ∷ gs) =
    let rest = all_granted gs in
    elim (union_of g.roles) [
      | none ↦ none
      | some ps ↦ elim rest [ none ↦ none | some qs ↦ some (ps ++ qs) ]
    ]

unfoldable pub group_permissions : String → List String → UserDirectory → Option (List String)
unfolding groups_for all_granted
group_permissions tenant ids d = all_granted (groups_for tenant ids d)
