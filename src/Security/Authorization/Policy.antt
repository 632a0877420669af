-- ===== src/Security/Authorization/Policy.antt =====
-- Who is allowed what.
use fabric_shortcut_proxy.Prelude.{
  contains, String, str_eq, Bool, true, false, not, ◌&&◌, ◌||◌, none, some, List, [], ◌∷◌, ◌++◌,
  if◌then◌else◌, any, ◌≡◌, inl, inr, refl, arith, Bool-cases, List-cases,
}
use fabric_shortcut_proxy.Dict.{Dict, lookup}
use fabric_shortcut_proxy.Security.Authorization.{
  known_permissions, role_table, PermissionGrant, User, role_permissions, or_empty, from_roles,
  from_grants, permissions, grant_matches, can, authorize, require, without, decision,
}

pub contains-append :
    (xs ys : List String) (x : String) → contains (xs ++ ys) x ≡ (contains xs x || contains ys x)
contains-append [] ys x = refl
contains-append (y ∷ xs) ys x = ground (arith, contains-append xs ys x)

contains-from_roles :
    (rs : List String) (x : String)
    → contains (from_roles rs) x ≡ any (λ r. contains (role_permissions r) x) rs
unfolding from_roles
contains-from_roles [] x = refl
contains-from_roles (r ∷ rs) x =
    ground (arith, contains-append (role_permissions r) (from_roles rs) x, contains-from_roles rs x)

-- A grant without a context matches every request for its permission.
from_grants-match :
    (x : String) (requested : Dict String) (gs : List PermissionGrant)
    → contains (from_grants gs) x ≡ true
    → any (grant_matches x requested) gs ≡ true
unfolding from_grants grant_matches
from_grants-match x requested [] h = h
from_grants-match x requested (g ∷ gs) h = elim (List-cases g.context) [
  | inl none_left ↦ ground (arith, none_left, from_grants-match x requested gs)
  | inr (e, es, some_left) ↦ ground (arith, some_left, from_grants-match x requested gs)
]

decide_can :
    (e p held f o m : Bool)
    → held ≡ (o || f)
    → (f ≡ true → m ≡ true)
    → (if not e || not p then false else if held then true else m) ≡ (e && p && (o || m))
decide_can e p held f o m eq sub = ground (arith, eq, sub, Bool-cases f)

-- A user may use a permission exactly when the user is enabled, the permission is a known one,
-- and either one of the user's roles grants it or one of the grants names it in a context that
-- the request matches.
pub can-Allowed :
    (u : User) (x : String) (requested : Dict String)
    → can u x requested ≡ (
        u.enabled
        && contains known_permissions x
        && (any (λ r. contains (role_permissions r) x) u.roles
            || any (grant_matches x requested) u.grants))
unfolding can permissions
can-Allowed u x requested =
    decide_can u.enabled (contains known_permissions x) _ (contains (from_grants u.grants) x)
      (any (λ r. contains (role_permissions r) x) u.roles)
      (any (grant_matches x requested) u.grants)
      (rw
        (
          contains-append (from_roles u.roles) (from_grants u.grants) x,
          contains-from_roles u.roles x,
        )
        refl)
      (from_grants-match x requested u.grants)

-- `authorize` allows what `can` allows, gives the reason of each refusal in the order of the
-- checks, and `require` returns the decision exactly when it allows.
pub require-Allowed :
    (u : User) (x : String) (requested : Dict String)
    → ((authorize u x requested).allowed ≡ can u x requested)
      × ((authorize u x requested).reason ≡ (
          if not (contains known_permissions x)
          then "unknown permission"
          else if not u.enabled
          then "user is disabled"
          else if can u x requested
          then "allowed"
          else "permission denied"))
      × (require u x requested
          ≡ (if can u x requested then some (authorize u x requested) else none))
unfolding authorize require can decision
require-Allowed u x requested = elim (Bool-cases (contains known_permissions x)) [
  | inl known ↦ elim (Bool-cases u.enabled) [
    | inl on ↦ rw (known, on) (refl, refl, refl)
    | inr off ↦ rw (known, off) (refl, refl, refl)
  ]
  | inr unknown ↦ rw unknown (ground arith)
]

granted-lookup :
    (r x : String) (d : Dict (List String))
    → contains (or_empty (lookup r d)) x ≡ true
    → any (λ e. str_eq e.0 r && contains e.1 x) d ≡ true
unfolding lookup or_empty
granted-lookup r x [] h = h
granted-lookup r x ((k, ps) ∷ d) h = ground (arith, granted-lookup r x d)

granted-auditor :
    (r : String)
    → any (λ e. str_eq e.0 r && contains e.1 "tokenization.reidentify") role_table ≡ true
    → str_eq "auditor" r ≡ true
unfolding role_table known_permissions without
granted-auditor r h = ground arith

no_auditor :
    (rs : List String)
    → any (λ r. str_eq "auditor" r) rs ≡ false
    → any (λ r. contains (role_permissions r) "tokenization.reidentify") rs ≡ false
unfolding role_permissions
no_auditor [] h = refl
no_auditor (r ∷ rs) h = ground (
  arith,
  no_auditor rs,
  granted-lookup r "tokenization.reidentify" role_table,
  granted-auditor r,
  Bool-cases (contains (role_permissions r) "tokenization.reidentify"),
)

no_grant :
    (x : String) (requested : Dict String) (gs : List PermissionGrant)
    → any (λ g. str_eq g.permission x) gs ≡ false
    → any (grant_matches x requested) gs ≡ false
unfolding grant_matches
no_grant x requested [] h = refl
no_grant x requested (g ∷ gs) h = ground (arith, no_grant x requested gs)

-- Separation of duties: whoever is not an auditor and has no grant for it cannot reidentify
-- tokens, whatever the other roles, the system administrator's included.
pub reidentify_separated :
    (u : User) (requested : Dict String)
    → any (λ r. str_eq "auditor" r) u.roles ≡ false
    → any (λ g. str_eq g.permission "tokenization.reidentify") u.grants ≡ false
    → can u "tokenization.reidentify" requested ≡ false
reidentify_separated u requested r g =
    rw
      (
        can-Allowed u "tokenization.reidentify" requested,
        no_auditor u.roles r,
        no_grant "tokenization.reidentify" requested u.grants g,
      )
      (ground arith)
