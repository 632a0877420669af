-- ===== src/Security/Directory/Admins.antt =====
-- What `UserDirectory` keeps.
use fabric_shortcut_proxy.Security.Authorization.Policy.{contains-append}
use fabric_shortcut_proxy.Prelude.{
  contains, ℕ, ◌+◌, ◌≤◌, String, str_eq, str_eq_iff, str_eq_refl, true, false, ◌&&◌, Option, none,
  some, List, [], ◌∷◌, if◌then◌else◌, all, leb, ◌≡◌, refl, ◌∙◌, arith, Bool-cases, Option-cases,
  inl, inr, subst, sym,
}
use fabric_shortcut_proxy.Dict.{Dict, lookup, insert, has_key}
use fabric_shortcut_proxy.Security.Authorization.{role_table, User}
use fabric_shortcut_proxy.Security.Directory.{
  Group, UserDirectory, unknown_roles, is_admin, enabled_admins, disable_found, disable,
  replace_group, groups_of, groups_for, union_of, any_grants, authorize_groups, all_granted,
  group_permissions,
}

weigh : User → ℕ
weigh u = if is_admin u then 1 else 0

-- Every user stands under the own id.
abbrev pub OwnIds : Dict User → Type 0
OwnIds [] = Unit
OwnIds ((k, u) ∷ d) = (k ≡ u.user_id) × OwnIds d

-- Replacing one entry changes the count by that entry.
enabled_admins-insert :
    (k : String) (u v : User) (d : Dict User)
    → lookup k d ≡ some u
    → enabled_admins (insert k v d) + weigh u ≡ enabled_admins d + weigh v
unfolding enabled_admins insert lookup weigh
enabled_admins-insert k u v [] h = cc
enabled_admins-insert k u v ((j, w) ∷ d) h = ground (arith, enabled_admins-insert k u v d)

lookup-OwnIds :
    (k : String) (u : User) (d : Dict User) → OwnIds d → lookup k d ≡ some u → u.user_id ≡ k
unfolding lookup
lookup-OwnIds k u [] own h = cc
lookup-OwnIds k u ((j, w) ∷ d) own h = ground (arith, lookup-OwnIds k u d, str_eq_iff j k)

OwnIds-insert :
    (k : String) (u : User) (d : Dict User) → k ≡ u.user_id → OwnIds d → OwnIds (insert k u d)
unfolding insert
OwnIds-insert k u [] e own = (e, tt)
OwnIds-insert k u ((j, w) ∷ d) e own = elim (Bool-cases (str_eq j k)) [
  | inl same ↦ rw same ((str_eq_iff j k).0 same ∙ e, own.1)
  | inr other ↦ rw other (own.0, OwnIds-insert k u d e own.1)
]

left_over :
    (u : User) (users : Dict User) (n : ℕ)
    → u.enabled ≡ true
    → (contains u.roles "system_administrator" && leb (enabled_admins users) 1) ≡ false
    → 1 ≤ enabled_admins users
    → n + weigh u ≡ enabled_admins users + weigh (record u { enabled = false })
    → 1 ≤ n
unfolding weigh is_admin
left_over u users n on spare some_admin counted = ground arith

disable_found-Keeps :
    (k : String) (o : Option User) (d : UserDirectory)
    → lookup k d.users ≡ o
    → OwnIds d.users
    → 1 ≤ enabled_admins d.users
    → OwnIds (disable_found o d).0.users × (1 ≤ enabled_admins (disable_found o d).0.users)
unfolding disable_found
disable_found-Keeps k none d absent own some_admin = (own, some_admin)
disable_found-Keeps k (some u) d there own some_admin =
    let off = record u { enabled = false } in
    let id : u.user_id ≡ k = lookup-OwnIds k u d.users own there in
    let counted =
      enabled_admins-insert u.user_id u off d.users
        (subst (λ i. lookup i d.users ≡ some u) (sym id) there) in
    let kept : OwnIds (insert u.user_id off d.users) =
      OwnIds-insert u.user_id off d.users refl own in
    elim (Bool-cases u.enabled) [
      | inr gone ↦ rw gone (own, some_admin)
      | inl on ↦
          elim (Bool-cases
            (contains u.roles "system_administrator" && leb (enabled_admins d.users) 1)) [
              | inl last ↦ rw (on, last) (own, some_admin)
              | inr spare ↦ rw (on, spare) (kept, left_over u d.users _ on spare some_admin counted)
            ]
    ]

abbrev pub disable_all : List String → UserDirectory → UserDirectory
disable_all [] d = d
disable_all (k ∷ ks) d = disable_all ks (disable k d).0

-- No sequence of `disable` calls takes away the last enabled system administrator.
pub administrator_survives :
    (ids : List String) (d : UserDirectory)
    → OwnIds d.users
    → 1 ≤ enabled_admins d.users
    → 1 ≤ enabled_admins (disable_all ids d).users
unfolding disable
administrator_survives [] d own h = h
administrator_survives (k ∷ ks) d own h =
    let (own', h') = disable_found-Keeps k (lookup k d.users) d refl own h in
    administrator_survives ks (disable k d).0 own' h'

granted-any :
    (gs : List Group) (x : String) (ps : List String)
    → all_granted gs ≡ some ps
    → any_grants gs x ≡ some (contains ps x)
unfolding all_granted any_grants
granted-any [] x ps h = ground arith
granted-any (g ∷ gs) x ps h = elim (Option-cases (union_of g.roles)) [
  | inl bad ↦ ground (arith, bad)
  | inr (qs, good) ↦ elim (Option-cases (all_granted gs)) [
    | inl bad ↦ ground (arith, bad, good)
    | inr (rs, fine) ↦
        let split = contains-append qs rs x in
        ground (arith, good, fine, split, granted-any gs x rs fine)
  ]
]

-- `group_permissions` is the set that `authorize_groups` decides by: where it is defined, a
-- permission is authorized exactly when it is in it.
pub authorize-group_permissions :
    (tenant : String) (ids : List String) (x : String) (d : UserDirectory) (ps : List String)
    → group_permissions tenant ids d ≡ some ps
    → authorize_groups tenant ids x d ≡ some (contains ps x)
unfolding authorize_groups group_permissions
authorize-group_permissions tenant ids x d ps h = granted-any (groups_for tenant ids d) x ps h

unknown-union_of :
    (rs : List String) → all (λ r. has_key r role_table) rs ≡ false → union_of rs ≡ none
unfolding union_of
unknown-union_of [] h = cc
unknown-union_of (r ∷ rs) h = elim (Option-cases (lookup r role_table)) [
  | inl absent ↦ rw (union_of, absent) refl
  | inr (ps, there) ↦ rw (union_of, there, unknown-union_of rs (ground (arith, there))) refl
]

-- A group with an unknown role is refused with an error, but stays stored: from then on an
-- authorization by that group raises, whatever the permission.
pub refused_group_raises :
    (g : Group) (x : String) (users : Dict User)
    → str_eq g.group_id "" ≡ false
    → g.enabled ≡ true
    → all (λ r. has_key r role_table) g.roles ≡ false
    → let after = replace_group g (record { users = users; groups = [] }) in
      (after.1 ≡ unknown_roles) × (authorize_groups g.tenant_id (g.group_id ∷ []) x after.0 ≡ none)
unfolding replace_group authorize_groups groups_for groups_of any_grants insert
refused_group_raises g x users named on unknown =
    ground
      (arith, unknown-union_of g.roles unknown, str_eq_refl g.group_id, str_eq_refl g.tenant_id)
