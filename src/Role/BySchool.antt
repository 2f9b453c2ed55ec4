-- ===== src/Role/BySchool.antt =====
-- src/services/role/services: the permissions that a school adds to a role or takes from it.
pub mod Laws
use schulcloud.Base.{
  String, Option, none, some, List, [], ◌∷◌, ◌++◌, Bool, true, false, not, ◌&&◌, ◌==◌,
  if◌then◌else◌, includes, filter,
}
use schulcloud.Role.{Role}

-- An object with its own keys, in order: permissions by name, and those by role name.
abbrev pub Overrides : Type 0
Overrides = List (String × Bool)

abbrev pub SchoolPermissions : Type 0
SchoolPermissions = List (String × Overrides)

unfoldable pub lookup {ℓ} : {V : Type ℓ} → String → List (String × V) → Option V
lookup key [] = none
lookup key ((k, v) ∷ rest) = if k == key then some v else lookup key rest

-- The inner `forEach` of `filterPermissions`.
abbrev pub enabled : Overrides → List String
enabled [] = []
enabled ((r, true) ∷ rest) = r ∷ enabled rest
enabled ((r, false) ∷ rest) = enabled rest

unfoldable pub filter_permissions : List String → SchoolPermissions → List String
filter_permissions [] school = []
filter_permissions (role ∷ roles) school =
    let rest = filter_permissions roles school in
    elim (lookup role school) [ none ↦ rest | some overrides ↦ enabled overrides ++ rest ]

-- One round of the inner `forEach` of `updateRoles`.
unfoldable pub override : String × Bool → List String → List String
override (r, true) permissions =
    if includes permissions r then permissions else permissions ++ r ∷ []
override (r, false) permissions = filter (λ p. not (p == r)) permissions

unfoldable pub override_all : Overrides → List String → List String
override_all [] permissions = permissions
override_all (o ∷ os) permissions = override_all os (override o permissions)

unfoldable pub update_role : SchoolPermissions → Role → Role
update_role school role = elim (lookup role.name school) [
  | none ↦ role
  | some overrides ↦ record role { permissions = override_all overrides role.permissions }
]

unfoldable pub update_roles : List Role → SchoolPermissions → List Role
update_roles [] school = []
update_roles (role ∷ roles) school = update_role school role ∷ update_roles roles school

-- `[...new Set(values)]`
unfoldable pub set_from : List String → List String → List String
set_from set [] = set
set_from set (v ∷ vs) = set_from (if includes set v then set else set ++ v ∷ []) vs

-- `UserPermissions.get`: the user's own permissions, and those that the school enables for the
-- names of the user's roles.
unfoldable pub user_permissions : List String → List String → SchoolPermissions → List String
user_permissions own role_names school = set_from [] (own ++ filter_permissions role_names school)
