-- ===== src/Role/Sort.antt =====
-- src/services/role/utils/rolesHelper.js: the hierarchy of roles, level by level.
pub mod Laws
use schulcloud.Base.{
  ℕ, zero, suc, Option, none, some, List, [], ◌∷◌, ◌++◌, Bool, true, false, includes, filter,
}
use schulcloud.Role.{Role}

abbrev pub is_empty {ℓ} : {A : Type ℓ} → List A → Bool
is_empty [] = true
is_empty (_ ∷ _) = false

-- The roles that inherit from the child.
abbrev pub found : List Role → Role → List Role
found roles child = filter (λ el. includes el.roles child.id) roles

-- The `reduce` over the last level.
unfoldable pub parents : List Role → List Role → List Role
parents roles [] = []
parents roles (child ∷ rest) = found roles child ++ parents roles rest

-- The inner `sort`, where `last` is the last level of `sorted`; `none` means that the fuel ran out.
unfoldable pub sort : ℕ → List Role → List (List Role) → List Role → Option (List (List Role))
sort zero roles sorted last = none
sort (suc fuel) roles sorted last =
    let next = parents roles last in
    elim next [ [] ↦ some sorted | p ∷ ps ↦ sort fuel roles (sorted ++ (p ∷ ps) ∷ []) (p ∷ ps) ]

abbrev pub start_roles : List Role → List Role
start_roles roles = filter (λ role. is_empty role.roles) roles

unfoldable pub sort_roles : ℕ → List Role → Option (List (List Role))
sort_roles fuel roles = sort fuel roles (start_roles roles ∷ []) (start_roles roles)
